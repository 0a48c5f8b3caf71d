-- ===== src/Rewrite/Placeholders.antt =====
-- pkg/sqlrewrite/rewriter.go: `convertPlaceholders`, and the count in `RewritePrepared`.
pub mod Toggle
pub mod Count
use my_proxy.Base.{
  ℕ, zero, suc, ◌+◌, ◌-◌, ◌*◌, ◌%◌, ◌^◌, Bool, true, false, ◌&&◌, ◌||◌, List, [], ◌∷◌, ◌++◌, Option,
  none, some, Bytes, ltb, ◌==◌, if◌then◌else◌,
}
use my_proxy.Base.Text.{is_decimal_digit, decimal, contains_byte}

abbrev pub is_quote : ℕ → Bool
is_quote c = c == b'\'' || c == b'"'

abbrev pub placeholder : ℕ → Bytes
placeholder n = b'$' ∷ decimal n

-- The loop: `param_num`, and the quote of the literal that it is in. A quote of the literal with
-- the same quote behind it is copied with it, and the literal goes on.
unfoldable pub convert : ℕ → Option ℕ → Bytes → Bytes
convert param_num quote [] = []
convert param_num none (c ∷ sql) =
    let opened = convert param_num (some c) sql in
    let marked = convert (param_num + 1) none sql in
    let copied = convert param_num none sql in
    if is_quote c
    then c ∷ opened
    else if c == b'?'
    then placeholder (param_num + 1) ++ marked
    else c ∷ copied
convert param_num (some q) (c ∷ []) = c ∷ []
convert param_num (some q) (c ∷ d ∷ sql) =
    let escaped = convert param_num (some q) sql in
    let closed = convert param_num none (d ∷ sql) in
    let copied = convert param_num (some q) (d ∷ sql) in
    if c == q then (if d == q then c ∷ c ∷ escaped else c ∷ closed) else c ∷ copied

unfoldable pub convert_placeholders : Bytes → Bytes
convert_placeholders sql = if contains_byte sql b'?' then convert 0 none sql else sql

-- `num = num*10 + …` over the digits at the head of a text, on an int of 64 bits.
unfoldable pub number_at : ℕ → Bytes → ℕ
number_at num [] = num
number_at num (c ∷ s) =
    let rest = number_at ((num * 10 + (c - b'0')) % 2 ^ 64) s in
    if is_decimal_digit c then rest else num

abbrev pub starts_with_digit : Bytes → Bool
starts_with_digit [] = false
starts_with_digit (c ∷ s) = is_decimal_digit c

-- `num > paramCount`; the top bit of `num` is its sign.
abbrev pub greater : ℕ → ℕ → ℕ
greater num count = if ltb num (2 ^ 63) && ltb count num then num else count

-- The loop of `RewritePrepared` over the rewritten text, from its start on.
unfoldable pub count_params : ℕ → Bytes → ℕ
count_params count [] = count
count_params count (c ∷ s) =
    let seen = count_params (greater (number_at 0 s) count) s in
    let rest = count_params count s in if c == b'$' && starts_with_digit s then seen else rest
