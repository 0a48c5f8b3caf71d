-- ===== src/Encoder/Events/Frame.antt =====
-- A client's reading of a whole event: the header, the payload and the checksum.
use my_proxy.Base.{
  ℕ, ◌+◌, ◌-◌, ◌^◌, ◌<◌, ◌≡◌, refl, sym, ap, ◌∙◌, false, ◌++◌, none, some, Bytes, length, take,
  drop, length-append, take-append, drop-append, ltb, arith,
}
use my_proxy.Base.Wire.{put_le, get_le, length-put_le, get_le-put_le}
use my_proxy.Encoder.Columns.{ColumnType, Formats}
use my_proxy.Encoder.Events.{
  Header, Event, event_size, header_bytes, frame, framed, raw_or, payload_of, encode_event,
}

pub record Frame : Type 0 where
  pub header : Header
  pub size : ℕ
  pub payload : Bytes
  pub checksum : ℕ

-- The 19 bytes of the header, the last 4 of the checksum, and what stands between them.
pub read_frame : Bytes → Frame
read_frame bytes = record {
  header = record {
    timestamp = get_le (take 4 bytes);
    event_type = get_le (take 1 (drop 4 bytes));
    server_id = get_le (take 4 (drop 5 bytes));
    log_pos = get_le (take 4 (drop 13 bytes));
    flags = get_le (take 2 (drop 17 bytes));
  };
  size = get_le (take 4 (drop 9 bytes));
  payload = take (length bytes - 23) (drop 19 bytes);
  checksum = get_le (drop (length bytes - 4) bytes);
}

-- The widths of the header's fields.
pub record Fits (h : Header) : Type 0 where
  pub timestamp_fits : h.timestamp < 2 ^ 32
  pub event_type_fits : h.event_type < 2 ^ 8
  pub server_id_fits : h.server_id < 2 ^ 32
  pub log_pos_fits : h.log_pos < 2 ^ 32
  pub flags_fits : h.flags < 2 ^ 16

length-header_bytes : (h : Header) (size : ℕ) → length (header_bytes h size) ≡ 19
unfolding header_bytes
length-header_bytes h size = omega (arith, length-append {0}, length-put_le)

length-front :
    (h : Header) (size : ℕ) (payload : Bytes)
    → length (header_bytes h size ++ payload) ≡ 19 + length payload
length-front h size payload =
    omega (arith, length-append (header_bytes h size) payload, length-header_bytes h size)

length-whole :
    (h : Header) (size sum : ℕ) (payload : Bytes)
    → length ((header_bytes h size ++ payload) ++ put_le 4 sum) ≡ 23 + length payload
length-whole h size sum payload = omega (
  arith,
  length-append (header_bytes h size ++ payload) (put_le 4 sum),
  length-front h size payload,
  length-put_le 4 sum,
)

abbrev make_frame : Header → ℕ → Bytes → ℕ → Frame
make_frame h n p c = record { header = h; size = n; payload = p; checksum = c }

frame_of :
    {h h' : Header} {n n' c c' : ℕ} {p p' : Bytes}
    → h ≡ h'
    → n ≡ n'
    → p ≡ p'
    → c ≡ c'
    → make_frame h n p c ≡ make_frame h' n' p' c'
frame_of a b c d = cc

abbrev make_header : ℕ → ℕ → ℕ → ℕ → ℕ → Header
make_header a b c d e = record {
  timestamp = a;
  event_type = b;
  server_id = c;
  log_pos = d;
  flags = e;
}

header_of :
    {a a' b b' c c' d d' e e' : ℕ}
    → a ≡ a'
    → b ≡ b'
    → c ≡ c'
    → d ≡ d'
    → e ≡ e'
    → make_header a b c d e ≡ make_header a' b' c' d' e'
header_of p q r s t = cc

read_frame-parts :
    (h : Header) (size sum : ℕ) (payload : Bytes)
    → Fits h
    → size < 2 ^ 32
    → sum < 2 ^ 32
    → read_frame ((header_bytes h size ++ payload) ++ put_le 4 sum)
      ≡ record { header = h; size = size; payload = payload; checksum = sum }
unfolding read_frame header_bytes put_le
read_frame-parts h size sum payload fits small sum_fits =
    let all = (header_bytes h size ++ payload) ++ put_le 4 sum in
    let whole : length all ≡ 23 + length payload = length-whole h size sum payload in
    let before : length all - 4 ≡ length (header_bytes h size ++ payload) =
      omega (arith, whole, length-front h size payload) in
    let inside : length all - 23 ≡ length payload = omega arith in
    frame_of
      (header_of (get_le-put_le 4 h.timestamp fits.timestamp_fits)
        (get_le-put_le 1 h.event_type fits.event_type_fits)
        (get_le-put_le 4 h.server_id fits.server_id_fits)
        (get_le-put_le 4 h.log_pos fits.log_pos_fits) (get_le-put_le 2 h.flags fits.flags_fits))
      (get_le-put_le 4 size small)
      (ap (λ n. take n (payload ++ put_le 4 sum)) inside ∙ take-append payload (put_le 4 sum))
      (ap (λ n. get_le (drop n all)) before
        ∙ ap get_le (drop-append (header_bytes h size ++ payload) (put_le 4 sum))
        ∙ get_le-put_le 4 sum sum_fits)

-- An event with no raw data, a header that fits its widths and a payload of less than 2 ^ 32 - 23
-- bytes is encoded: a client reads back the header, the length of the whole event, the payload,
-- and a checksum that is the one of all bytes before it.
pub read_frame-encode_event :
    (crc : Bytes → ℕ) (lenenc : ℕ → Bytes) (code_of : ColumnType → ℕ) (f : Formats) (e : Event)
    (payload : Bytes)
    → ((bs : Bytes) → crc bs < 2 ^ 32)
    → e.raw_data ≡ none
    → Fits e.header
    → payload_of lenenc code_of f e.body ≡ some payload
    → length payload + 23 < 2 ^ 32
    → (all : Bytes) × (encode_event lenenc code_of f crc e ≡ some all)
      × (length all ≡ length payload + 23)
      × (read_frame all ≡ record {
        header = e.header;
        size = length all;
        payload = payload;
        checksum = crc (take (length all - 4) all);
      })
unfolding encode_event frame
read_frame-encode_event crc lenenc code_of f e payload crc_fits plain fits encoded small =
    let size = event_size payload in
    let exact : size ≡ length payload + 23 = omega arith in
    let front = header_bytes e.header size ++ payload in
    let all = front ++ put_le 4 (crc front) in
    let roomy : ltb size (19 + length payload + 4) ≡ false = ground arith in
    let whole : length all ≡ length payload + 23 =
      omega (arith, length-whole e.header size (crc front) payload) in
    let before : length all - 4 ≡ length front =
      omega (arith, whole, length-front e.header size payload) in
    let covered : take (length all - 4) all ≡ front =
      ap (λ n. take n all) before ∙ take-append front (put_le 4 (crc front)) in
    (
      all,
      ap (λ r. raw_or r (framed crc e.header (payload_of lenenc code_of f e.body))) plain
          ∙ ap (framed crc e.header) encoded
          ∙ rw (frame, roomy) refl,
      whole,
      read_frame-parts e.header size (crc front) payload fits (omega arith) (crc_fits front)
          ∙ frame_of refl (exact ∙ sym whole) refl (ap crc (sym covered)),
    )
