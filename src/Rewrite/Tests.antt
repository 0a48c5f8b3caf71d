-- ===== src/Rewrite/Tests.antt =====
-- The rewriting of concrete statements.
use my_proxy.Base.{◌++◌, [], ◌∷◌, ◌≡◌, refl, Option, none, some, Bytes, codes, true}
use my_proxy.Base.Text.{contains_byte}
use my_proxy.Rewrite.Accounts.{
  trim_quotes_left, trim_quotes_right, quote_identifier, rewrite_create_user,
}
use my_proxy.Rewrite.Accounts.Quoting.{
  read_quoted, quote_identifier-unquoted, rewrite_create_user-password,
}
use my_proxy.Rewrite.Placeholders.{convert_placeholders}
use my_proxy.Rewrite.Placeholders.Toggle.{number_marks, convert_placeholders-number_marks}
use my_proxy.Rewrite.Types.{Kind}
use my_proxy.Rewrite.Columns.{TableColumnType, constraint_index, constraint_uniq, keep_constraints}

-- Two marks and one in a literal.
abbrev two_marks : Bytes
two_marks = codes "UPDATE t SET a='it''s ?' , b=? WHERE c=?"

convert_placeholders-number_marks_example :
    convert_placeholders two_marks ≡ number_marks 0 none two_marks
convert_placeholders-number_marks_example = convert_placeholders-number_marks two_marks

abbrev refused : Bytes → Option Bytes
refused sql = none

-- A name that ends its quotes and goes on with an attribute.
quote_identifier-unquoted_example :
    (body : Bytes) × (quote_identifier (codes "a\" SUPERUSER; --") ≡ b'"' ∷ body)
    × (read_quoted b'"' body ≡ some (codes "a", codes " SUPERUSER; --\""))
unfolding trim_quotes_left trim_quotes_right contains_byte
quote_identifier-unquoted_example =
    quote_identifier-unquoted (codes "a") (codes " SUPERUSER; --") refl refl refl

rewrite_create_user-password_example :
    (body : Bytes) × (rewrite_create_user
        (record { username = codes "tom"; password = some (codes "it's") } ∷ [])
      ≡ codes "CREATE ROLE "
        ++ (quote_identifier (codes "tom") ++ (codes " WITH LOGIN PASSWORD '" ++ body)))
    × (read_quoted b'\'' body ≡ some (codes "it's", []))
rewrite_create_user-password_example = rewrite_create_user-password (codes "tom") (codes "it's") []

abbrev small_unsigned : TableColumnType
small_unsigned = record {
  kind = Kind.short;
  unsigned = true;
  zerofill = true;
  flen = 5;
  decimals = 0;
  elems = [];
}

-- An index goes out of the statement, and a unique constraint stays without its name.
one_constraint :
    keep_constraints (
      record { kind = constraint_index; name = codes "i"; keys = codes "a" ∷ [] }
      ∷ record { kind = constraint_uniq; name = codes "u"; keys = codes "b" ∷ [] }
      ∷ [])
    ≡ record { kind = constraint_uniq; name = []; keys = codes "b" ∷ [] } ∷ []
unfolding keep_constraints
one_constraint = refl
