-- ===== src/Encoder/Strings/Laws.antt =====
-- A client's reading of a length-prefixed text, and what it makes of the encoders' bytes.
use mathlib.Core.List.{append_assoc}
use my_proxy.Base.{
  ℕ, ◌^◌, ◌<◌, ◌≤◌, ◌≡◌, ◌⊎◌, inl, inr, false, ◌++◌, Option, none, some, Bytes, length, take, drop,
  take-append, drop-append, length-append, ltb, if◌then◌else◌, arith, Bool-cases, tests,
}
use my_proxy.Base.Wire.{put_le, get_le, length-put_le, get_le-put_le}
use my_proxy.Encoder.Strings.{
  prefixed, encode_var_string, blob_width, encode_blob, json_of, encode_json,
}
use my_proxy.Encoder.Value.{Value}

-- A text whose length stands in `k` bytes before it, and the bytes behind it.
pub read_text : ℕ → Bytes → Option (Bytes × Bytes)
read_text k bs =
    let n = get_le (take k bs) in
    let rest = drop k bs in
    if ltb (length bs) k
    then none
    else if ltb (length rest) n
    then none
    else some (take n rest, drop n rest)

take-put_le : (k n : ℕ) (rest : Bytes) → take k (put_le k n ++ rest) ≡ put_le k n
take-put_le k n rest = rw (length-put_le k n) at (take-append (put_le k n) rest)

drop-put_le : (k n : ℕ) (rest : Bytes) → drop k (put_le k n ++ rest) ≡ rest
drop-put_le k n rest = rw (length-put_le k n) at (drop-append (put_le k n) rest)

pub read_text-prefixed :
    (k : ℕ) (s rest : Bytes)
    → length s < 256 ^ k
    → read_text k (prefixed k s ++ rest) ≡ some (s, rest)
unfolding read_text
read_text-prefixed k s rest h =
    let long : ltb (length (put_le k (length s) ++ (s ++ rest))) k ≡ false =
      ground (arith, length-append (put_le k (length s)) (s ++ rest), length-put_le k (length s)) in
    let enough : ltb (length (s ++ rest)) (length s) ≡ false =
      ground (arith, length-append s rest) in
    simp (
      append_assoc,
      long,
      take-put_le k (length s) (s ++ rest),
      drop-put_le k (length s) (s ++ rest),
      get_le-put_le k (length s) h,
      enough,
      take-append s rest,
      drop-append s rest,
    )

-- The width of the prefix of a text column with the maximum `meta`.
abbrev pub var_width : ℕ → ℕ
var_width meta = if ltb meta 256 then 1 else 2

widths :
    (s : Bytes) (meta : ℕ) (rest : Bytes)
    → length s ≤ meta
    → meta < 2 ^ 16
    → read_text (var_width meta) ((if ltb meta 256 then prefixed 1 s else prefixed 2 s) ++ rest)
      ≡ some (s, rest)
widths s meta rest h k = elim (Bool-cases (ltb meta 256)) [
  | inl short ↦ rw short (read_text-prefixed 1 s rest (omega (tests, short)))
  | inr long ↦ rw long (read_text-prefixed 2 s rest (omega arith))
]

module _ (sprint : Value → Bytes) where
  -- A text that is no longer than its column's maximum is read back whole, with the width of the
  -- prefix that the maximum gives, whatever follows it.
  pub read_text-encode_var_string :
      (v : Value) (s : Bytes) (meta : ℕ) (rest : Bytes)
      → (v ≡ Value.string s) ⊎ (v ≡ Value.bytes s)
      → length s ≤ meta
      → meta < 2 ^ 16
      → read_text (var_width meta) (encode_var_string sprint v meta ++ rest) ≡ some (s, rest)
  unfolding encode_var_string
  read_text-encode_var_string v s meta rest (inl e) h k = rw e (widths s meta rest h k)
  read_text-encode_var_string v s meta rest (inr e) h k = rw e (widths s meta rest h k)

-- A blob whose length fits the prefix of its column is read back whole, whatever follows it.
pub read_text-encode_blob :
    (v : Value) (s : Bytes) (meta : ℕ) (rest : Bytes)
    → (v ≡ Value.string s) ⊎ (v ≡ Value.bytes s)
    → length s < 256 ^ blob_width meta
    → read_text (blob_width meta) (encode_blob v meta ++ rest) ≡ some (s, rest)
unfolding encode_blob
read_text-encode_blob v s meta rest (inl e) h = rw e (read_text-prefixed (blob_width meta) s rest h)
read_text-encode_blob v s meta rest (inr e) h = rw e (read_text-prefixed (blob_width meta) s rest h)

-- A JSON value of any Go type is read back as its text, which is "{}" for a type that is neither
-- a string nor bytes, where the length fits the `meta` bytes of the prefix.
pub read_text-encode_json :
    (v : Value) (meta : ℕ) (rest : Bytes)
    → length (json_of v) < 256 ^ meta
    → read_text meta (encode_json v meta ++ rest) ≡ some (json_of v, rest)
unfolding encode_json
read_text-encode_json v meta rest h = read_text-prefixed meta (json_of v) rest h
