-- ===== src/Encoder/Strings.antt =====
-- `encodeVarString`, `encodeFixedString`, `encodeBlob`, `encodeJSON`: texts behind their lengths.
-- `sprint` is `fmt.Sprintf("%v", val)` of a value that is neither a string nor bytes.
pub mod Laws
use my_proxy.Base.{
  ℕ, zero, suc, ◌+◌, ◌/◌, ◌%◌, ◌^◌, [], ◌∷◌, ◌++◌, Bytes, codes, length, ltb, leb, ◌==◌,
  if◌then◌else◌,
}
use my_proxy.Base.Wire.{put_le}
use my_proxy.Encoder.Value.{Value}

-- A text behind its length in `k` little-endian bytes; the length wraps.
abbrev pub prefixed : ℕ → Bytes → Bytes
prefixed k s = put_le k (length s) ++ s

module _ (sprint : Value → Bytes) where
  pub text_of : Value → Bytes
  text_of (Value.string t) = t
  text_of (Value.bytes t) = t
  text_of v = sprint v

  unfoldable pub encode_var_string : Value → ℕ → Bytes
  unfolding text_of
  encode_var_string v meta = if ltb meta 256 then prefixed 1 (text_of v) else prefixed 2 (text_of v)

  unfoldable pub encode_fixed_string : Value → ℕ → Bytes
  unfolding encode_var_string
  encode_fixed_string v meta = encode_var_string v (if leb 256 meta then meta % 2 ^ 8 else meta)

-- The switch on `meta`, 2 bytes by default.
abbrev pub blob_width : ℕ → ℕ
blob_width meta = if meta == 1 then 1 else if meta == 3 then 3 else if meta == 4 then 4 else 2

unfoldable pub encode_blob : Value → ℕ → Bytes
encode_blob (Value.bytes t) meta = prefixed (blob_width meta) t
encode_blob (Value.string t) meta = prefixed (blob_width meta) t
encode_blob v meta = []

unfoldable pub json_of : Value → Bytes
json_of (Value.bytes t) = t
json_of (Value.string t) = t
json_of v = codes "{}"

-- `buf[i] = byte(length >> (8 * i))` for the `meta` bytes of the prefix.
unfoldable pub encode_json : Value → ℕ → Bytes
unfolding json_of
encode_json v meta = prefixed meta (json_of v)
