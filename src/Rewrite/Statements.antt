-- ===== src/Rewrite/Statements.antt =====
-- pkg/sqlrewrite/rewriter.go: `Rewrite` and `RewritePrepared` with the fallback on texts, and the
-- tests of a statement's kind. `ast` is the rewriter on syntax trees, `none` where it fails; the
-- log of slow statements is left out.
pub mod Fallback
pub mod Literals
use my_proxy.Base.{
  ℕ, zero, suc, ◌+◌, ◌-◌, Bool, true, false, ◌&&◌, ◌||◌, List, [], ◌∷◌, ◌++◌, Option, none, some,
  Bytes, codes, length, drop, ltb, ◌==◌, if◌then◌else◌,
}
use my_proxy.Base.Eq.{equal}
use my_proxy.Base.Text.{has_prefix, contains_byte, replace_all, trim_space, to_upper}
use my_proxy.Rewrite.Placeholders.{is_quote, convert_placeholders, count_params}

abbrev pub prefixes : List Bytes
prefixes =
    codes "_UTF8MB4"
    ∷ codes "_utf8mb4"
    ∷ codes "_UTF8"
    ∷ codes "_utf8"
    ∷ codes "_BINARY"
    ∷ codes "_binary"
    ∷ codes "_LATIN1"
    ∷ codes "_latin1"
    ∷ codes "_ASCII"
    ∷ codes "_ascii"
    ∷ codes "_UCS2"
    ∷ codes "_ucs2"
    ∷ codes "_UTF16"
    ∷ codes "_utf16"
    ∷ codes "_UTF32"
    ∷ codes "_utf32"
    ∷ []

abbrev starts_with_quote : Bytes → Bool
starts_with_quote [] = false
starts_with_quote (c ∷ s) = is_quote c

-- The length of the first prefix that stands before a quote, and 0 where there is none.
unfoldable pub matched_prefix : List Bytes → Bytes → ℕ
matched_prefix [] s = 0
matched_prefix (p ∷ ps) s =
    let rest = matched_prefix ps s in
    if ltb (length p) (length s) && (has_prefix s p && starts_with_quote (drop (length p) s))
    then length p
    else rest

-- The loop; `skip` bytes belong to a prefix.
unfoldable pub remove_prefixes : ℕ → Bytes → Bytes
remove_prefixes skip [] = []
remove_prefixes (suc skip) (c ∷ s) = remove_prefixes skip s
remove_prefixes zero (c ∷ s) =
    let n = if c == b'_' && ltb 2 (length (c ∷ s)) then matched_prefix prefixes (c ∷ s) else 0 in
    let skipped = remove_prefixes (n - 1) s in
    let copied = remove_prefixes 0 s in if n == 0 then c ∷ copied else skipped

unfoldable pub remove_charset_prefixes : Bytes → Bytes
remove_charset_prefixes sql = if contains_byte sql b'_' then remove_prefixes 0 sql else sql

abbrev pub quote_identifiers : Bytes → Bytes
quote_identifiers sql = replace_all sql (codes "`") (codes "\"")

unfoldable pub fast_path_rewrite : Bytes → Bytes
fast_path_rewrite sql = convert_placeholders (remove_charset_prefixes (quote_identifiers sql))

unfoldable pub strip_tidb_syntax : Bytes → Bytes
strip_tidb_syntax sql =
    replace_all (replace_all sql (codes " CLUSTERED ") (codes " ")) (codes " NONCLUSTERED ")
      (codes " ")

-- `nil` for a rewriter with no rewriter on trees.
unfoldable pub rewrite : Option (Bytes → Option Bytes) → Bool → Bytes → Bytes
rewrite ast enabled sql =
    if enabled then rewritten ast (strip_tidb_syntax (trim_space sql)) else sql
  where
    or_fallback : Option Bytes → Bytes → Bytes
    or_fallback none sql = fast_path_rewrite sql
    or_fallback (some result) sql = result

    rewritten : Option (Bytes → Option Bytes) → Bytes → Bytes
    rewritten none sql = sql
    rewritten (some ast) sql = or_fallback (ast sql) sql

-- The text, and the number of parameters; the error is always nil.
unfoldable pub rewrite_prepared : Option (Bytes → Option Bytes) → Bool → Bytes → Bytes × ℕ
rewrite_prepared ast enabled sql = let text = rewrite ast enabled sql in (text, count_params 0 text)

abbrev pub upper_of : Bytes → Bytes
upper_of sql = to_upper (trim_space sql)

unfoldable pub is_show_statement : Bytes → Bool
is_show_statement sql =
    has_prefix (upper_of sql) (codes "SHOW ")
    || (has_prefix (upper_of sql) (codes "DESCRIBE ") || has_prefix (upper_of sql) (codes "DESC "))

unfoldable pub is_set_statement : Bytes → Bool
is_set_statement sql = has_prefix (upper_of sql) (codes "SET ")

unfoldable pub is_use_statement : Bytes → Bool
is_use_statement sql = has_prefix (upper_of sql) (codes "USE ")

unfoldable pub is_begin_statement : Bytes → Bool
is_begin_statement sql =
    equal (upper_of sql) (codes "BEGIN")
    || (equal (upper_of sql) (codes "START TRANSACTION")
        || (has_prefix (upper_of sql) (codes "BEGIN ")
            || has_prefix (upper_of sql) (codes "START TRANSACTION ")))

unfoldable pub is_commit_statement : Bytes → Bool
is_commit_statement sql =
    equal (upper_of sql) (codes "COMMIT") || has_prefix (upper_of sql) (codes "COMMIT ")

unfoldable pub is_rollback_statement : Bytes → Bool
is_rollback_statement sql =
    equal (upper_of sql) (codes "ROLLBACK") || has_prefix (upper_of sql) (codes "ROLLBACK ")
