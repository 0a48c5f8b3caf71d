-- ===== src/Rewrite/Types.antt =====
-- pkg/sqlrewrite/type_mapper.go: MySQL's column types and defaults for PostgreSQL. The kinds of
-- the library's field types are a data type; a length that is not positive is 0.
use my_proxy.Base.{
  ℕ, Bool, true, false, ◌&&◌, ◌||◌, List, [], ◌∷◌, ◌++◌, Option, none, some, Bytes, codes, ltb, leb,
  ◌==◌, if◌then◌else◌,
}
use my_proxy.Base.Eq.{equal}
use my_proxy.Base.Text.{has_prefix, to_upper, decimal}

pub data Kind : Type 0 where
  tiny short long int24 long_long float double new_decimal : Kind
  date datetime timestamp duration year varchar var_string string : Kind
  tiny_blob blob medium_blob long_blob json enum set bit geometry null other : Kind

pub record FieldType : Type 0 where
  pub kind : Kind
  pub unsigned : Bool
  pub binary : Bool
  pub flen : ℕ
  pub decimals : ℕ

-- A name with a length behind it, and without one where it is 0.
abbrev pub with_length : Bytes → ℕ → Bytes
with_length name n = if ltb 0 n then name ++ (codes "(" ++ (decimal n ++ codes ")")) else name

abbrev bounded_length : Bytes → ℕ → ℕ → Bytes
bounded_length name most n = if ltb 0 n && leb n most then with_length name n else codes "TEXT"

abbrev text_or_bytes : Bool → Bytes
text_or_bytes binary = if binary then codes "BYTEA" else codes "TEXT"

abbrev numeric : ℕ → ℕ → Bytes
numeric n d =
    if ltb 0 n && ltb 0 d
    then codes "NUMERIC(" ++ (decimal n ++ (codes "," ++ (decimal d ++ codes ")")))
    else with_length (codes "NUMERIC") n

abbrev pub by_kind : Kind → FieldType → Bytes
by_kind Kind.tiny t = codes "SMALLINT"
by_kind Kind.short t = codes "SMALLINT"
by_kind Kind.long t = if t.unsigned then codes "BIGINT" else codes "INTEGER"
by_kind Kind.int24 t = if t.unsigned then codes "BIGINT" else codes "INTEGER"
by_kind Kind.long_long t = if t.unsigned then codes "NUMERIC(20,0)" else codes "BIGINT"
by_kind Kind.float t = codes "REAL"
by_kind Kind.double t = codes "DOUBLE PRECISION"
by_kind Kind.new_decimal t = numeric t.flen t.decimals
by_kind Kind.date t = codes "DATE"
by_kind Kind.datetime t = with_length (codes "TIMESTAMP") t.flen
by_kind Kind.timestamp t = with_length (codes "TIMESTAMP") t.flen
by_kind Kind.duration t = with_length (codes "TIME") t.flen
by_kind Kind.year t = codes "SMALLINT"
by_kind Kind.varchar t = bounded_length (codes "VARCHAR") 65535 t.flen
by_kind Kind.var_string t = bounded_length (codes "VARCHAR") 65535 t.flen
by_kind Kind.string t = bounded_length (codes "CHAR") 255 t.flen
by_kind Kind.tiny_blob t = text_or_bytes t.binary
by_kind Kind.blob t = text_or_bytes t.binary
by_kind Kind.medium_blob t = text_or_bytes t.binary
by_kind Kind.long_blob t = text_or_bytes t.binary
by_kind Kind.json t = codes "JSONB"
by_kind Kind.enum t = codes "TEXT"
by_kind Kind.set t = codes "TEXT[]"
by_kind Kind.bit t = with_length (codes "BIT") t.flen
by_kind Kind.geometry t = codes "GEOMETRY"
by_kind Kind.null t = codes "TEXT"
by_kind Kind.other t = codes "TEXT"

-- `none` is nil.
unfoldable pub mysql_to_postgresql : Option FieldType → Bytes
mysql_to_postgresql none = codes "TEXT"
mysql_to_postgresql (some t) = by_kind t.kind t

abbrev is_tiny : Kind → Bool
is_tiny Kind.tiny = true
is_tiny _ = false

unfoldable pub is_boolean_type : Option FieldType → Bool
is_boolean_type none = false
is_boolean_type (some t) = is_tiny t.kind && t.flen == 1

unfoldable pub mysql_to_postgresql_boolean : Option FieldType → Bytes
mysql_to_postgresql_boolean t = if is_boolean_type t then codes "BOOLEAN" else mysql_to_postgresql t

abbrev one_of : Bytes → List Bytes → Bool
one_of s [] = false
one_of s (t ∷ ts) = equal s t || one_of s ts

abbrev boolean_default : Bytes → Bytes → Bytes
boolean_default s upper =
    if equal s (codes "0") || equal upper (codes "FALSE")
    then codes "FALSE"
    else if equal s (codes "1") || equal upper (codes "TRUE")
    then codes "TRUE"
    else s

abbrev call_default : Bytes → Bytes → Bytes → Bytes
call_default s upper pg_type =
    if one_of upper (codes "NOW()" ∷ codes "CURRENT_TIMESTAMP()" ∷ codes "CURRENT_TIMESTAMP" ∷ [])
    then codes "CURRENT_TIMESTAMP"
    else if one_of upper (codes "CURDATE()" ∷ codes "CURRENT_DATE()" ∷ codes "CURRENT_DATE" ∷ [])
    then codes "CURRENT_DATE"
    else if one_of upper (codes "CURTIME()" ∷ codes "CURRENT_TIME()" ∷ codes "CURRENT_TIME" ∷ [])
    then codes "CURRENT_TIME"
    else if has_prefix pg_type (codes "BOOLEAN")
    then boolean_default s upper
    else s

unfoldable pub get_postgresql_default_value : Bytes → Bytes → Bytes
get_postgresql_default_value [] pg_type = []
get_postgresql_default_value (c ∷ s) pg_type = call_default (c ∷ s) (to_upper (c ∷ s)) pg_type
