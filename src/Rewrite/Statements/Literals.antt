-- ===== src/Rewrite/Statements/Literals.antt =====
-- The removal of charset prefixes does not look for literals.
use my_proxy.Base.{ℕ, ◌≡◌, refl, ap, true, false, [], ◌∷◌, ◌++◌, Bytes, codes, ◌==◌, arith}
use my_proxy.Base.Text.{has_prefix, contains_byte}
use my_proxy.Rewrite.Statements.{matched_prefix, remove_prefixes, remove_charset_prefixes}

remove_prefixes_copied :
    (body s : Bytes)
    → contains_byte body b'_' ≡ false
    → remove_prefixes 0 (body ++ s) ≡ body ++ remove_prefixes 0 s
unfolding remove_prefixes contains_byte
remove_prefixes_copied [] s h = refl
remove_prefixes_copied (c ∷ body) s h =
    let other : (c == b'_') ≡ false = ground arith in
    rw other (ap (◌∷◌ c) (remove_prefixes_copied body s (ground arith)))

contains_byte-append :
    (body s : Bytes) (b : ℕ) → contains_byte s b ≡ true → contains_byte (body ++ s) b ≡ true
unfolding contains_byte
contains_byte-append [] s b h = h
contains_byte-append (c ∷ body) s b h = ground (arith, contains_byte-append body s b h)

-- A literal that ends in "_utf8", with no underscore before it, loses this end.
pub remove_charset_prefixes-literal :
    (body : Bytes)
    → contains_byte body b'_' ≡ false
    → remove_charset_prefixes (b'\'' ∷ (body ++ codes "_utf8'")) ≡ b'\'' ∷ (body ++ codes "'")
unfolding remove_charset_prefixes remove_prefixes matched_prefix has_prefix contains_byte
remove_charset_prefixes-literal body h =
    rw (contains_byte-append body (codes "_utf8'") b'_' refl)
      (ap (◌∷◌ b'\'') (remove_prefixes_copied body (codes "_utf8'") h))
