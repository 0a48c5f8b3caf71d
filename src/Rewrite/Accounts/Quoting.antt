-- ===== src/Rewrite/Accounts/Quoting.antt =====
-- What PostgreSQL reads of the quoted texts, with standard_conforming_strings.
use mathlib.Core.List.{append_assoc}
use my_proxy.Base.{
  ℕ, ◌≡◌, refl, sym, ap, ◌∙◌, Bool, true, false, ◌&&◌, List, [], ◌∷◌, ◌++◌, Option, none, some,
  Bytes, codes, ◌==◌, if◌then◌else◌, Bool-cases, inl, inr, arith,
}
use my_proxy.Base.Text.{has_prefix, contains_byte, replace_from, is_decimal_digit}
use my_proxy.Rewrite.Accounts.{
  UserSpec, is_simple, all_simple, quoted, trim_quotes_left, trim_quotes_right, quote_identifier,
  escape_string, rewrite_create_user,
}

abbrev with_byte : ℕ → Option (Bytes × Bytes) → Option (Bytes × Bytes)
with_byte c none = none
with_byte c (some (s, rest)) = some (c ∷ s, rest)

-- A reader behind the opening quote `q`, in which a doubled quote stands for one: the text, and what
-- is behind the closing quote.
unfoldable pub read_quoted : ℕ → Bytes → Option (Bytes × Bytes)
read_quoted q [] = none
read_quoted q (c ∷ []) = if c == q then some ([], []) else none
read_quoted q (c ∷ d ∷ s) =
    let doubled = with_byte q (read_quoted q s) in
    let more = with_byte c (read_quoted q (d ∷ s)) in
    if c == q then (if d == q then doubled else some ([], d ∷ s)) else more

abbrev pub starts_with : ℕ → Bytes → Bool
starts_with b [] = false
starts_with b (c ∷ s) = c == b

read_quoted_copied :
    (q c : ℕ) (s : Bytes) → (c == q) ≡ false → read_quoted q (c ∷ s) ≡ with_byte c (read_quoted q s)
unfolding read_quoted
read_quoted_copied q c [] h = rw h refl
read_quoted_copied q c (d ∷ s) h = rw h refl

read_quoted_closed :
    (q : ℕ) (rest : Bytes) → starts_with q rest ≡ false → read_quoted q (q ∷ rest) ≡ some ([], rest)
unfolding read_quoted
read_quoted_closed q [] h = let same : (q == q) ≡ true = ground arith in rw same refl
read_quoted_closed q (d ∷ rest) h = let same : (q == q) ≡ true = ground arith in rw (same, h) refl

read_quoted_doubled :
    (q : ℕ) (s : Bytes) → read_quoted q (q ∷ q ∷ s) ≡ with_byte q (read_quoted q s)
unfolding read_quoted
read_quoted_doubled q s = let same : (q == q) ≡ true = ground arith in rw same refl

-- An escaped text with a quote behind it is read back whole, where no other quote follows.
read_quoted-escape_string :
    (s rest : Bytes)
    → starts_with b'\'' rest ≡ false
    → read_quoted b'\'' (escape_string s ++ b'\'' ∷ rest) ≡ some (s, rest)
unfolding escape_string replace_from has_prefix
read_quoted-escape_string [] rest h = read_quoted_closed b'\'' rest h
read_quoted-escape_string (c ∷ s) rest h = elim (Bool-cases (c == b'\'')) [
  | inl quote ↦
      let same : c ≡ b'\'' = ground arith in
      rw quote (
        read_quoted_doubled b'\'' (escape_string s ++ b'\'' ∷ rest)
        ∙ ap (with_byte b'\'') (read_quoted-escape_string s rest h)
        ∙ ap (λ b. some (b ∷ s, rest)) (sym same))
  | inr other ↦ rw other (
      read_quoted_copied b'\'' c (escape_string s ++ b'\'' ∷ rest) other
      ∙ ap (with_byte c) (read_quoted-escape_string s rest h))
]

read_quoted_front :
    (q : ℕ) (front rest : Bytes)
    → contains_byte front q ≡ false
    → starts_with q rest ≡ false
    → read_quoted q (front ++ q ∷ rest) ≡ some (front, rest)
unfolding contains_byte
read_quoted_front q [] rest h k = read_quoted_closed q rest k
read_quoted_front q (c ∷ front) rest h k =
    read_quoted_copied q c (front ++ q ∷ rest) (ground arith)
    ∙ ap (with_byte c) (read_quoted_front q front rest (ground arith) k)

all_simple_quote : (front back : Bytes) → all_simple (front ++ b'"' ∷ back) ≡ false
unfolding all_simple is_decimal_digit
all_simple_quote [] back = refl
all_simple_quote (c ∷ front) back = rw (all_simple_quote front back) (and_false (is_simple c))
  where
    and_false : (b : Bool) → (b && false) ≡ false
    and_false true = refl
    and_false false = refl

-- A name that is trimmed already and has a double quote inside it gets out of its quotes: PostgreSQL
-- reads as the name what stands before the quote, and what stands behind it as the statement goes on,
-- unless another double quote follows at once.
pub quote_identifier-unquoted :
    (front back : Bytes)
    → trim_quotes_right (trim_quotes_left (front ++ b'"' ∷ back)) ≡ front ++ b'"' ∷ back
    → contains_byte front b'"' ≡ false
    → starts_with b'"' (back ++ b'"' ∷ []) ≡ false
    → (body : Bytes) × (quote_identifier (front ++ b'"' ∷ back) ≡ b'"' ∷ body)
      × (read_quoted b'"' body ≡ some (front, back ++ b'"' ∷ []))
unfolding quote_identifier
quote_identifier-unquoted front back trimmed h k = (
  front ++ b'"' ∷ (back ++ b'"' ∷ []),
  ap quoted trimmed
      ∙ rw (all_simple_quote front back)
          (ap (◌∷◌ b'"') (append_assoc front (b'"' ∷ back) (b'"' ∷ []))),
  read_quoted_front b'"' front (back ++ b'"' ∷ []) h k,
)

-- The statement that creates a user with a password ends, behind the opening quote of the password,
-- with a text of which PostgreSQL reads exactly the password, whatever bytes it has, and nothing is
-- left behind it.
pub rewrite_create_user-password :
    (name password : Bytes) (users : List UserSpec)
    → (body : Bytes) × (rewrite_create_user
          (record { username = name; password = some password } ∷ users)
        ≡ codes "CREATE ROLE "
          ++ (quote_identifier name ++ (codes " WITH LOGIN PASSWORD '" ++ body)))
      × (read_quoted b'\'' body ≡ some (password, []))
unfolding rewrite_create_user
rewrite_create_user-password name password users =
    (escape_string password ++ codes "'", refl, read_quoted-escape_string password [] refl)
