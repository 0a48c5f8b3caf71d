-- ===== src/Encoder/Temporal/Laws.antt =====
-- A client's reading of the date and time columns.
use my_proxy.Base.{
  ℕ, suc, ◌+◌, ◌-◌, ◌*◌, ◌/◌, ◌%◌, ◌^◌, ◌<◌, ◌≤◌, ◌≡◌, ap, ◌∙◌, Bool, not, Option, none, some, ◌++◌,
  Bytes, take, replicate, take-append, leb, if◌then◌else◌, arith,
}
use my_proxy.Base.Bits.{bit_or_disjoint}
use my_proxy.Base.Int.{ℤ, pos, negsuc}
use my_proxy.Base.Wire.{put_be, get_le, get_be, get_le-put_le, get_be-put_be, length-put_be}
use my_proxy.Encoder.Temporal.{
  Clock, pack_hms, encode_date, time2_int, time2_parts, frac_bytes, is_negative, encode_time2,
  datetime2_int, encode_datetime2,
}
use my_proxy.Encoder.Value.{Value, Time}

-- DATE: 5 bits of day, 4 of month, the rest the year.
abbrev pub read_date : Bytes → ℕ × ℕ × ℕ
read_date bs = (get_le bs / 512, get_le bs / 32 % 16, get_le bs % 32)

-- The sign of a TIME2, set for a value that is not negative, with the fields of its magnitude.
pub read_time2 : Bytes → Bool × ℕ × ℕ × ℕ
read_time2 bs =
    let v = get_be (take 3 bs) in
    let size = if leb 0x800000 v then v - 0x800000 else 0x800000 - v in
    (leb 0x800000 v, size / 4096, size / 64 % 64, size % 64)

abbrev fields_of_datetime2 : ℕ → (ℕ × ℕ × ℕ) × (ℕ × ℕ × ℕ)
fields_of_datetime2 w = (
  (w / 2 ^ 17 / 32 / 13, w / 2 ^ 17 / 32 % 13, w / 2 ^ 17 % 32),
  (w % 2 ^ 17 / 4096, w / 64 % 64, w % 64),
)

-- DATETIME2: year and month, day, hour, minute and second in 5 bytes with an offset.
pub read_datetime2 : Bytes → (ℕ × ℕ × ℕ) × (ℕ × ℕ × ℕ)
read_datetime2 bs = fields_of_datetime2 (get_be (take 5 bs) - 0x8000000000)

pack_hms_sum : (h m s : ℕ) → h < 2 ^ 40 → m < 64 → s < 64 → pack_hms h m s ≡ h * 4096 + m * 64 + s
pack_hms_sum h m s p q r =
    let small : h * 2 ^ 12 % 2 ^ 64 ≡ h * 2 ^ 12 = omega arith in
    let small' : m * 2 ^ 6 % 2 ^ 64 ≡ m * 2 ^ 6 = omega arith in
    let joined : h * 2 ^ 12 + m * 2 ^ 6 ≡ (h * 64 + m) * 2 ^ 6 = omega arith in
    rw
      (
        small,
        small',
        bit_or_disjoint 12 h (m * 2 ^ 6) (omega arith),
        joined,
        bit_or_disjoint 6 (h * 64 + m) s r,
      )
      (omega arith)

-- The parts of a time that a DATETIME2 can hold.
pub record IsCivil (t : Time) : Type 0 where
  pub year_fits : t.year ≤ 9999
  pub month_fits : t.month < 13
  pub day_fits : t.day < 32
  pub hour_fits : t.hour < 24
  pub minute_fits : t.minute < 60
  pub second_fits : t.second < 60

abbrev civil_sum : Time → ℕ
civil_sum t =
    ((t.year * 13 + t.month) * 32 + t.day) * 2 ^ 17 + (t.hour * 4096 + t.minute * 64 + t.second)

datetime2_sum : (t : Time) → IsCivil t → datetime2_int t ≡ civil_sum t + 0x8000000000
unfolding datetime2_int
datetime2_sum t h =
    let ym = t.year * 13 + t.month in
    let ymd = ym * 32 + t.day in
    let hms = t.hour * 4096 + t.minute * 64 + t.second in
    let small : ym * 2 ^ 5 % 2 ^ 64 ≡ ym * 2 ^ 5 = omega arith in
    let small' : (ym * 2 ^ 5 + t.day) * 2 ^ 17 % 2 ^ 64 ≡ (ym * 2 ^ 5 + t.day) * 2 ^ 17 =
      omega arith in
    simp
      (
        small,
        bit_or_disjoint 5 ym t.day h.day_fits,
        small',
        pack_hms_sum t.hour t.minute t.second (omega arith) (omega arith) (omega arith),
        bit_or_disjoint 17 (ym * 2 ^ 5 + t.day) hms (omega arith),
      )
      (omega arith)

fields_of_sum :
    (t : Time)
    → IsCivil t
    → fields_of_datetime2 (civil_sum t) ≡ ((t.year, t.month, t.day), (t.hour, t.minute, t.second))
fields_of_sum t h = ground arith

abbrev pub abs : ℤ → ℕ
abs (pos n) = n
abs (negsuc n) = suc n

time2_pos :
    (h m s : ℕ)
    → h < 1024
    → m < 60
    → s < 60
    → time2_int (pos h, pos m, pos s) ≡ h * 4096 + m * 64 + s + 0x800000
unfolding time2_int
time2_pos h m s hh hm hs =
    let a : h % 2 ^ 64 ≡ h = omega arith in
    let b : m % 2 ^ 64 ≡ m = omega arith in
    let c : s % 2 ^ 64 ≡ s = omega arith in
    simp (a, b, c, pack_hms_sum h m s (omega arith) (omega arith) (omega arith)) (omega arith)

time2_neg :
    (n m s : ℕ)
    → n < 1023
    → m < 60
    → s < 60
    → time2_int (negsuc n, pos m, pos s) ≡ 0x800000 - (suc n * 4096 + m * 64 + s)
unfolding time2_int
time2_neg n m s hn hm hs =
    let a : suc n % 2 ^ 64 ≡ suc n = omega arith in
    let b : m % 2 ^ 64 ≡ m = omega arith in
    let c : s % 2 ^ 64 ≡ s = omega arith in
    simp (a, b, c, pack_hms_sum (suc n) m s (omega arith) (omega arith) (omega arith)) (omega arith)

abbrev fields_of_time2 : ℕ → Bool × ℕ × ℕ × ℕ
fields_of_time2 v =
    let size = if leb 0x800000 v then v - 0x800000 else 0x800000 - v in
    (leb 0x800000 v, size / 4096, size / 64 % 64, size % 64)

fields_of_time2_int :
    (z : ℤ) (m s : ℕ)
    → abs z < 1024
    → m < 60
    → s < 60
    → (time2_int (z, pos m, pos s) < 256 ^ 3)
      × (fields_of_time2 (time2_int (z, pos m, pos s)) ≡ (not (is_negative z), abs z, m, s))
fields_of_time2_int (pos h) m s hz hm hs = rw (time2_pos h m s hz hm hs) (omega arith, ground arith)
fields_of_time2_int (negsuc n) m s hz hm hs =
    rw (time2_neg n m s (omega arith) hm hs) (omega arith, ground arith)

read_time2_front :
    (v : ℕ) (rest : Bytes) → v < 256 ^ 3 → read_time2 (put_be 3 v ++ rest) ≡ fields_of_time2 v
unfolding read_time2
read_time2_front v rest h =
    let front : take 3 (put_be 3 v ++ rest) ≡ put_be 3 v =
      rw (length-put_be 3 v) at (take-append (put_be 3 v) rest) in
    ap (λ bs. fields_of_time2 (get_be bs)) front ∙ ap fields_of_time2 (get_be-put_be 3 v h)

module _ (clock : Clock) where
  -- A text that is scanned as a year below 2 ^ 15, a month below 16 and a day below 32 is read
  -- back as those three numbers.
  pub read_date-encode_date :
      (s : Bytes) (y m d : ℕ)
      → clock.scan_date s ≡ (pos y, pos m, pos d)
      → y < 2 ^ 15
      → m < 16
      → d < 32
      → read_date (encode_date clock (Value.string s)) ≡ (y, m, d)
  unfolding encode_date
  read_date-encode_date s y m d e hy hm hd =
      let small : (y % 2 ^ 64 * 16 * 32 + m % 2 ^ 64 * 32 + d % 2 ^ 64) % 2 ^ 32
          ≡ y * 512 + m * 32 + d =
        omega arith in
      rw (e, small, get_le-put_le 3 (y * 512 + m * 32 + d) (omega arith)) (ground arith)

  -- A time of the civil range is read back in all its six fields, at every precision.
  pub read_datetime2-encode_datetime2 :
      (t : Time) (meta : ℕ)
      → IsCivil t
      → read_datetime2 (encode_datetime2 clock (Value.time t) meta)
        ≡ ((t.year, t.month, t.day), (t.hour, t.minute, t.second))
  unfolding read_datetime2 encode_datetime2
  read_datetime2-encode_datetime2 t meta h =
      let w = datetime2_int t in
      let front : take 5 (put_be 5 w ++ replicate (frac_bytes meta) 0) ≡ put_be 5 w =
        rw (length-put_be 5 w) at (take-append (put_be 5 w) (replicate (frac_bytes meta) 0)) in
      let read : get_be (put_be 5 w) ≡ w =
        get_be-put_be 5 w (omega (arith, datetime2_sum t h, h.year_fits, h.month_fits)) in
      let size : w - 0x8000000000 ≡ civil_sum t = omega (arith, datetime2_sum t h) in
      ap (λ bs. fields_of_datetime2 (get_be bs - 0x8000000000)) front
      ∙ ap (λ v. fields_of_datetime2 (v - 0x8000000000)) read
      ∙ ap fields_of_datetime2 size
      ∙ fields_of_sum t h

  time2_parts-fields :
      (meta : ℕ) (before : Bytes) (frac : Option Bytes)
      → time2_int (clock.scan_time before) < 256 ^ 3
      → read_time2 (time2_parts clock meta (before, frac))
        ≡ fields_of_time2 (time2_int (clock.scan_time before))
  unfolding time2_parts
  time2_parts-fields meta before none h = read_time2_front _ _ h
  time2_parts-fields meta before (some digits) h = read_time2_front _ _ h

  -- A text whose part before the dot is scanned as an hour of magnitude below 1024 with a minute
  -- and a second below 60 is read back with that hour's sign and the three magnitudes, whatever
  -- its fraction and the precision.
  pub read_time2-encode_time2 :
      (t before : Bytes) (frac : Option Bytes) (meta : ℕ) (z : ℤ) (m s : ℕ)
      → clock.split_dot t ≡ (before, frac)
      → clock.scan_time before ≡ (z, pos m, pos s)
      → abs z < 1024
      → m < 60
      → s < 60
      → read_time2 (encode_time2 clock (Value.string t) meta) ≡ (not (is_negative z), abs z, m, s)
  unfolding encode_time2
  read_time2-encode_time2 t before frac meta z m s e scanned hz hm hs =
      let (small, fields) = fields_of_time2_int z m s hz hm hs in
      rw e (
        time2_parts-fields meta before frac (rw scanned small)
        ∙ ap (λ f. fields_of_time2 (time2_int f)) scanned
        ∙ fields)
