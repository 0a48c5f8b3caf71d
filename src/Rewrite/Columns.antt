-- ===== src/Rewrite/Columns.antt =====
-- pkg/sqlrewrite/ast_visitor.go: `convertColumnType` and `visitCreateTable`, on the parts of the
-- library's statement that they read and write. The loop over a column's options, which changes
-- nothing, is left out; a column without a type is `none`.
pub mod Ranges
use my_proxy.Base.{ℕ, Bool, true, false, List, [], ◌∷◌, Option, none, some, Bytes, if◌then◌else◌}
use my_proxy.Rewrite.Types.{Kind}

pub record TableColumnType : Type 0 where
  pub kind : Kind
  pub unsigned : Bool
  pub zerofill : Bool
  pub flen : ℕ
  pub decimals : ℕ
  pub elems : List Bytes

-- The first switch, on the kind.
abbrev pub plain_kind : Kind → TableColumnType → TableColumnType
plain_kind Kind.tiny t = record t { kind = Kind.short }
plain_kind Kind.int24 t = record t { kind = Kind.long }
plain_kind Kind.datetime t = record t { kind = Kind.timestamp }
plain_kind Kind.enum t = record t { kind = Kind.varchar; flen = 50; elems = [] }
plain_kind Kind.tiny_blob t = record t { kind = Kind.blob }
plain_kind Kind.medium_blob t = record t { kind = Kind.blob }
plain_kind Kind.long_blob t = record t { kind = Kind.blob }
plain_kind Kind.year t = record t { kind = Kind.short }
plain_kind _ t = t

-- The second switch, of an unsigned column, on the kind that the first one left.
abbrev pub wider_kind : Kind → TableColumnType → TableColumnType
wider_kind Kind.short t = record t { kind = Kind.long; unsigned = false }
wider_kind Kind.long t = record t { kind = Kind.long_long; unsigned = false }
wider_kind Kind.long_long t = record t {
  kind = Kind.new_decimal;
  unsigned = false;
  flen = 20;
  decimals = 0;
}
wider_kind _ t = t

abbrev pub without_zerofill : TableColumnType → TableColumnType
without_zerofill t = record t { zerofill = false }

abbrev pub widened : TableColumnType → TableColumnType
widened t = if t.unsigned then wider_kind t.kind t else t

unfoldable pub convert_column_type : Option TableColumnType → Option TableColumnType
convert_column_type none = none
convert_column_type (some t) = some (widened (without_zerofill (plain_kind t.kind t)))

-- The constraints that the code tells apart, with any other by its number.
pub data ConstraintKind : Type 0 where
  constraint_index constraint_key constraint_uniq : ConstraintKind
  other_constraint : ℕ → ConstraintKind

pub record Constraint : Type 0 where
  pub kind : ConstraintKind
  pub name : Bytes
  pub keys : List Bytes

unfoldable pub keep_constraints : List Constraint → List Constraint
keep_constraints [] = []
keep_constraints (c ∷ constraints) =
    let rest = keep_constraints constraints in
    elim c.kind [
      | constraint_index ↦ rest
      | constraint_key ↦ rest
      | constraint_uniq ↦ record c { name = [] } ∷ rest
      | other_constraint n ↦ c ∷ rest
    ]

pub data OptionKind : Type 0 where
  engine charset collate auto_increment row_format key_block_size compression : OptionKind
  comment : OptionKind
  other_option : ℕ → OptionKind

-- An option by its kind and its text.
unfoldable pub keep_options : List (OptionKind × Bytes) → List (OptionKind × Bytes)
keep_options [] = []
keep_options ((comment, text) ∷ options) = (comment, text) ∷ keep_options options
keep_options ((other_option n, text) ∷ options) = (other_option n, text) ∷ keep_options options
keep_options ((_, text) ∷ options) = keep_options options

pub record CreateTable : Type 0 where
  pub constraints : List Constraint
  pub table_options : List (OptionKind × Bytes)
  pub cols : List (Bytes × Option TableColumnType)

unfoldable pub convert_column_types :
    List (Bytes × Option TableColumnType) → List (Bytes × Option TableColumnType)
convert_column_types [] = []
convert_column_types ((name, t) ∷ cols) = (name, convert_column_type t) ∷ convert_column_types cols

unfoldable pub visit_create_table : CreateTable → CreateTable
visit_create_table node = record {
  constraints = keep_constraints node.constraints;
  table_options = keep_options node.table_options;
  cols = convert_column_types node.cols;
}
