-- ===== src/Encoder/Temporal.antt =====
-- `encodeYear`, `encodeDate`, `encodeTime`, `encodeTime2`, `encodeDatetime`, `encodeDatetime2`,
-- `encodeTimestamp`, `encodeTimestamp2`. The library's scanners and formatters are parameters.
pub mod Laws
use Prim.Native.Nat.{bit_or}
use my_proxy.Base.{
  ℕ, zero, suc, ◌+◌, ◌-◌, ◌*◌, ◌/◌, ◌%◌, ◌^◌, Bool, true, false, not, ◌&&◌, List, [], ◌∷◌, ◌++◌,
  Option, none, some, Bytes, codes, length, take, replicate, ltb, leb, ◌==◌, if◌then◌else◌,
}
use my_proxy.Base.Eq.{equal}
use my_proxy.Base.Int.{ℤ, pos, negsuc, pos_part, neg_part, bits, signed}
use my_proxy.Base.Wire.{put_le, put_be}
use my_proxy.Encoder.Value.{Value, Time}

-- `scan_date` and `scan_time` are `fmt.Sscanf` with the formats "%d-%d-%d" and "%d:%d:%d", which
-- leave a variable that is not read at 0; `scan_datetime` reads both parts, `scan_int` is "%d".
-- The formats are those of `Time.Format`; `parse` is `time.Parse("2006-01-02 15:04:05", s)` with
-- its error ignored. `split_dot` is `strings.SplitN(s, ".", 2)`.
pub record Clock : Type 0 where
  pub scan_date : Bytes → ℤ × ℤ × ℤ
  pub scan_time : Bytes → ℤ × ℤ × ℤ
  pub scan_datetime : Bytes → (ℤ × ℤ × ℤ) × (ℤ × ℤ × ℤ)
  pub scan_int : Bytes → ℤ
  pub format_date : Time → Bytes
  pub format_micros : Time → Bytes
  pub format_datetime : Time → Bytes
  pub parse : Bytes → Time
  pub split_dot : Bytes → Bytes × Option Bytes

abbrev word : ℤ → ℕ
word = bits 64

abbrev frac_bytes : ℕ → ℕ
frac_bytes meta = ((meta + 1) % 2 ^ 16) / 2

pub year_value : Value → ℤ
year_value (Value.int t) = t
year_value (Value.int64 t) = t
year_value (Value.int32 t) = t
year_value v = pos 0

unfoldable pub encode_year : Value → Bytes
unfolding year_value
encode_year v =
    let year = word (year_value v) in
    if year == 0 then 0 ∷ [] else ((year + 2 ^ 64 - 1900) % 256) ∷ []

-- The arithmetic on the fields is on 64 bits, and its low 32 bits are kept.
abbrev pack_date : ℤ × ℤ × ℤ → ℕ
pack_date (year, month, day) = (word year * 16 * 32 + word month * 32 + word day) % 2 ^ 32

abbrev pack_time : ℤ × ℤ × ℤ → ℕ
pack_time (hour, minute, second) = (word hour * 10000 + word minute * 100 + word second) % 2 ^ 32

-- `hour << 12 | minute << 6 | second` on int64.
abbrev pack_hms : ℕ → ℕ → ℕ → ℕ
pack_hms hour minute second =
    bit_or (bit_or (hour * 2 ^ 12 % 2 ^ 64) (minute * 2 ^ 6 % 2 ^ 64)) second

abbrev is_negative : ℤ → Bool
is_negative (pos n) = false
is_negative (negsuc n) = true

abbrev negated : ℤ → ℤ
negated (pos zero) = pos 0
negated (pos (suc n)) = negsuc n
negated (negsuc n) = pos (suc n)

-- The integer part of a TIME2, of which three bytes are written.
pub time2_int : ℤ × ℤ × ℤ → ℕ
time2_int (hour, minute, second) =
    if is_negative hour
    then (0x800000 + 2 ^ 64 - pack_hms (word (negated hour)) (word minute) (word second)) % 2 ^ 64
    else (pack_hms (word hour) (word minute) (word second) + 0x800000) % 2 ^ 64

-- The digits padded with zeros, or cut, to `meta` of them.
pub fit_digits : ℕ → Bytes → Bytes
fit_digits meta digits = take meta (digits ++ replicate (meta - length digits) b'0')

-- The switch on the number of fraction bytes, which the buffer has zeroed.
pub time2_frac : ℕ → ℕ → Bytes
time2_frac n frac = if leb n 3 then put_be n frac else replicate n 0

abbrev zero_datetime : Bytes
zero_datetime = codes "0000-00-00 00:00:00"

-- The Unix time of Go's zero `Time`.
abbrev zero_time_unix : ℤ
zero_time_unix = negsuc 62135596799

-- `ymd<<17 | hms` with the offset, on int64.
pub datetime2_int : Time → ℕ
datetime2_int t =
    let ymd = bit_or ((t.year * 13 + t.month) * 2 ^ 5 % 2 ^ 64) t.day in
    (bit_or (ymd * 2 ^ 17 % 2 ^ 64) (pack_hms t.hour t.minute t.second) + 0x8000000000) % 2 ^ 64

pub datetime2_of : ℕ → Time → Bytes
unfolding datetime2_int
datetime2_of meta t = put_be 5 (datetime2_int t) ++ replicate (frac_bytes meta) 0

pub timestamp2_of : ℕ → ℤ → Bytes
timestamp2_of meta unix = put_be 4 (bits 32 unix) ++ replicate (frac_bytes meta) 0

module _ (clock : Clock) where
  pub date_of : Bytes → Bytes
  date_of s = put_le 3 (pack_date (clock.scan_date s))

  unfoldable pub encode_date : Value → Bytes
  unfolding date_of
  encode_date (Value.string t) = date_of t
  encode_date (Value.time t) = date_of (clock.format_date t)
  encode_date v = replicate 3 0

  unfoldable pub encode_time : Value → Bytes
  encode_time (Value.string t) = put_le 3 (pack_time (clock.scan_time t))
  encode_time v = replicate 3 0

  -- Behind `SplitN`: the text before the dot, and the digits behind it where there is a dot.
  pub time2_parts : ℕ → Bytes × Option Bytes → Bytes
  time2_parts meta (before, none) =
      put_be 3 (time2_int (clock.scan_time before)) ++ time2_frac (frac_bytes meta) 0
  time2_parts meta (before, some digits) =
      put_be 3 (time2_int (clock.scan_time before))
      ++ time2_frac (frac_bytes meta) (word (clock.scan_int (fit_digits meta digits)))

  unfoldable pub encode_time2 : Value → ℕ → Bytes
  unfolding time2_parts time2_int time2_frac fit_digits
  encode_time2 (Value.string t) meta = time2_parts meta (clock.split_dot t)
  encode_time2 (Value.time t) meta = time2_parts meta (clock.split_dot (clock.format_micros t))
  encode_time2 v meta = replicate (3 + frac_bytes meta) 0

  pub datetime_of : (ℤ × ℤ × ℤ) × (ℤ × ℤ × ℤ) → Bytes
  datetime_of ((year, month, day), (hour, minute, second)) =
      let d = word year * 10000 + word month * 100 + word day in
      let t = word hour * 10000 + word minute * 100 + word second in
      put_le 8 ((d * 1000000 + t) % 2 ^ 64)

  unfoldable pub encode_datetime : Value → Bytes
  unfolding datetime_of
  encode_datetime (Value.string t) = datetime_of (clock.scan_datetime t)
  encode_datetime (Value.time t) = datetime_of (clock.scan_datetime (clock.format_datetime t))
  encode_datetime v = replicate 8 0

  unfoldable pub encode_datetime2 : Value → ℕ → Bytes
  unfolding datetime2_of
  encode_datetime2 (Value.time t) meta = datetime2_of meta t
  encode_datetime2 (Value.string t) meta = datetime2_of meta (clock.parse t)
  encode_datetime2 v meta = replicate (5 + frac_bytes meta) 0

  pub timestamp_value : Value → ℤ
  timestamp_value (Value.time t) = t.unix
  timestamp_value (Value.string t) = if equal t zero_datetime then pos 0 else (clock.parse t).unix
  timestamp_value (Value.int64 t) = t
  timestamp_value v = pos 0

  unfoldable pub encode_timestamp : Value → Bytes
  unfolding timestamp_value
  encode_timestamp v = put_le 4 (bits 32 (timestamp_value v))

  unfoldable pub encode_timestamp2 : Value → ℕ → Bytes
  unfolding timestamp2_of
  encode_timestamp2 (Value.time t) meta = timestamp2_of meta t.unix
  encode_timestamp2 (Value.string t) meta =
      if equal t zero_datetime
      then replicate (4 + frac_bytes meta) 0
      else timestamp2_of meta (clock.parse t).unix
  encode_timestamp2 v meta = timestamp2_of meta zero_time_unix
