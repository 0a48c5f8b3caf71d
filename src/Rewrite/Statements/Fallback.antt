-- ===== src/Rewrite/Statements/Fallback.antt =====
-- A prepared statement that the rewriter on trees refuses.
use my_proxy.Base.{
  ℕ, ◌<◌, ◌^◌, ◌≡◌, refl, ap, ◌∙◌, true, false, [], ◌∷◌, Option, none, some, Bytes, codes, length,
  ◌==◌, arith,
}
use my_proxy.Base.Text.{has_prefix, contains_byte, replace_from, trim_space}
use my_proxy.Rewrite.Placeholders.{convert_placeholders, count_params}
use my_proxy.Rewrite.Placeholders.Count.{marks, separated, count_params-convert_placeholders}
use my_proxy.Rewrite.Placeholders.Toggle.{number_marks, convert_placeholders-number_marks}
use my_proxy.Rewrite.Statements.{
  remove_charset_prefixes, fast_path_rewrite, strip_tidb_syntax, rewrite, rewrite_prepared,
}

replace_from_none :
    (b : ℕ) (new s : Bytes) → contains_byte s b ≡ false → replace_from 0 (b ∷ []) new s ≡ s
unfolding replace_from contains_byte has_prefix
replace_from_none b new [] h = refl
replace_from_none b new (c ∷ s) h =
    let other : (c == b) ≡ false = ground arith in
    rw other (ap (◌∷◌ c) (replace_from_none b new s (ground arith)))

fast_path_rewrite-convert_placeholders :
    (sql : Bytes)
    → contains_byte sql b'`' ≡ false
    → contains_byte sql b'_' ≡ false
    → fast_path_rewrite sql ≡ convert_placeholders sql
unfolding fast_path_rewrite remove_charset_prefixes
fast_path_rewrite-convert_placeholders sql h k =
    ap (λ t. convert_placeholders (remove_charset_prefixes t))
      (replace_from_none b'`' (codes "\"") sql h)
    ∙ rw k refl

-- A statement that the parser refuses, and whose text, trimmed and with TiDB's words taken out,
-- has no backtick, underscore or dollar sign and no mark with a digit right behind it, is prepared
-- as the text with its marks numbered, and the count is the number of the marks.
pub rewrite_prepared-fallback :
    (ast : Bytes → Option Bytes) (sql text : Bytes)
    → strip_tidb_syntax (trim_space sql) ≡ text
    → ast text ≡ none
    → contains_byte text b'`' ≡ false
    → contains_byte text b'_' ≡ false
    → contains_byte text b'$' ≡ false
    → separated none text ≡ true
    → length text < 2 ^ 63
    → rewrite_prepared (some ast) true sql ≡ (number_marks 0 none text, marks none text)
unfolding rewrite_prepared rewrite
rewrite_prepared-fallback ast sql text same refused h k m p small =
    let done : rewrite (some ast) true sql ≡ convert_placeholders text =
      rw (same, refused) (fast_path_rewrite-convert_placeholders text h k) in
    ap (λ t. (t, count_params 0 t)) done
    ∙ ap (λ t. (convert_placeholders text, t)) (count_params-convert_placeholders text m p small)
    ∙ ap (λ t. (t, marks none text)) (convert_placeholders-number_marks text)
