-- ===== src/Mapper/Kinds.antt =====
-- pkg/mapper/types.go: the tables between the types of PostgreSQL and of MySQL, and the packets of
-- fields. The conversions of values are not modelled.
use my_proxy.Base.{ℕ, [], ◌∷◌, Option, none, some, Bytes, codes, ltb, if◌then◌else◌}
use my_proxy.Base.Dict.{Dict, lookup}
use my_proxy.Base.Eq.{nat_eq}

abbrev pub mysql_type_decimal : ℕ
mysql_type_decimal = 0

abbrev pub mysql_type_tiny : ℕ
mysql_type_tiny = 1

abbrev pub mysql_type_short : ℕ
mysql_type_short = 2

abbrev pub mysql_type_long : ℕ
mysql_type_long = 3

abbrev pub mysql_type_float : ℕ
mysql_type_float = 4

abbrev pub mysql_type_double : ℕ
mysql_type_double = 5

abbrev pub mysql_type_null : ℕ
mysql_type_null = 6

abbrev pub mysql_type_timestamp : ℕ
mysql_type_timestamp = 7

abbrev pub mysql_type_longlong : ℕ
mysql_type_longlong = 8

abbrev pub mysql_type_int24 : ℕ
mysql_type_int24 = 9

abbrev pub mysql_type_date : ℕ
mysql_type_date = 10

abbrev pub mysql_type_time : ℕ
mysql_type_time = 11

abbrev pub mysql_type_datetime : ℕ
mysql_type_datetime = 12

abbrev pub mysql_type_year : ℕ
mysql_type_year = 13

abbrev pub mysql_type_newdate : ℕ
mysql_type_newdate = 14

abbrev pub mysql_type_varchar : ℕ
mysql_type_varchar = 15

abbrev pub mysql_type_bit : ℕ
mysql_type_bit = 16

abbrev pub mysql_type_json : ℕ
mysql_type_json = 245

abbrev pub mysql_type_newdecimal : ℕ
mysql_type_newdecimal = 246

abbrev pub mysql_type_enum : ℕ
mysql_type_enum = 247

abbrev pub mysql_type_set : ℕ
mysql_type_set = 248

abbrev pub mysql_type_tiny_blob : ℕ
mysql_type_tiny_blob = 249

abbrev pub mysql_type_medium_blob : ℕ
mysql_type_medium_blob = 250

abbrev pub mysql_type_long_blob : ℕ
mysql_type_long_blob = 251

abbrev pub mysql_type_blob : ℕ
mysql_type_blob = 252

abbrev pub mysql_type_var_string : ℕ
mysql_type_var_string = 253

abbrev pub mysql_type_string : ℕ
mysql_type_string = 254

abbrev pub mysql_type_geometry : ℕ
mysql_type_geometry = 255

-- The value of a switch's case, or of its default.
abbrev case_or {ℓ} : {A : Type ℓ} → A → Option A → A
case_or d none = d
case_or d (some a) = a

abbrev pg_cases : Dict ℕ ℕ
pg_cases =
    (16, mysql_type_tiny)
    ∷ (20, mysql_type_longlong)
    ∷ (21, mysql_type_short)
    ∷ (23, mysql_type_long)
    ∷ (700, mysql_type_float)
    ∷ (701, mysql_type_double)
    ∷ (1700, mysql_type_newdecimal)
    ∷ (1043, mysql_type_var_string)
    ∷ (25, mysql_type_var_string)
    ∷ (1042, mysql_type_string)
    ∷ (1082, mysql_type_date)
    ∷ (1083, mysql_type_time)
    ∷ (1114, mysql_type_datetime)
    ∷ (1184, mysql_type_datetime)
    ∷ (17, mysql_type_blob)
    ∷ (114, mysql_type_json)
    ∷ (3802, mysql_type_json)
    ∷ []

unfoldable pub postgresql_to_mysql : ℕ → ℕ
postgresql_to_mysql pg_type = case_or mysql_type_var_string (lookup pg_type pg_cases)

abbrev name_cases : Dict ℕ Bytes
name_cases =
    (mysql_type_decimal, codes "DECIMAL")
    ∷ (mysql_type_newdecimal, codes "DECIMAL")
    ∷ (mysql_type_tiny, codes "TINYINT")
    ∷ (mysql_type_short, codes "SMALLINT")
    ∷ (mysql_type_long, codes "INT")
    ∷ (mysql_type_float, codes "FLOAT")
    ∷ (mysql_type_double, codes "DOUBLE")
    ∷ (mysql_type_null, codes "NULL")
    ∷ (mysql_type_timestamp, codes "TIMESTAMP")
    ∷ (mysql_type_longlong, codes "BIGINT")
    ∷ (mysql_type_int24, codes "MEDIUMINT")
    ∷ (mysql_type_date, codes "DATE")
    ∷ (mysql_type_time, codes "TIME")
    ∷ (mysql_type_datetime, codes "DATETIME")
    ∷ (mysql_type_year, codes "YEAR")
    ∷ (mysql_type_varchar, codes "VARCHAR")
    ∷ (mysql_type_var_string, codes "VARCHAR")
    ∷ (mysql_type_bit, codes "BIT")
    ∷ (mysql_type_json, codes "JSON")
    ∷ (mysql_type_enum, codes "ENUM")
    ∷ (mysql_type_set, codes "SET")
    ∷ (mysql_type_tiny_blob, codes "TINYBLOB")
    ∷ (mysql_type_medium_blob, codes "MEDIUMBLOB")
    ∷ (mysql_type_long_blob, codes "LONGBLOB")
    ∷ (mysql_type_blob, codes "BLOB")
    ∷ (mysql_type_string, codes "CHAR")
    ∷ (mysql_type_geometry, codes "GEOMETRY")
    ∷ []

unfoldable pub mysql_type_to_string : ℕ → Bytes
mysql_type_to_string mysql_type = case_or (codes "UNKNOWN") (lookup mysql_type name_cases)

abbrev length_cases : Dict ℕ ℕ
length_cases =
    (mysql_type_tiny, 4)
    ∷ (mysql_type_short, 6)
    ∷ (mysql_type_long, 11)
    ∷ (mysql_type_int24, 11)
    ∷ (mysql_type_longlong, 20)
    ∷ (mysql_type_float, 12)
    ∷ (mysql_type_double, 22)
    ∷ (mysql_type_decimal, 10)
    ∷ (mysql_type_newdecimal, 10)
    ∷ (mysql_type_date, 10)
    ∷ (mysql_type_time, 8)
    ∷ (mysql_type_datetime, 19)
    ∷ (mysql_type_timestamp, 19)
    ∷ (mysql_type_year, 4)
    ∷ (mysql_type_varchar, 255)
    ∷ (mysql_type_var_string, 255)
    ∷ (mysql_type_string, 255)
    ∷ (mysql_type_tiny_blob, 255)
    ∷ (mysql_type_blob, 65535)
    ∷ (mysql_type_medium_blob, 16777215)
    ∷ (mysql_type_long_blob, 4294967295)
    ∷ (mysql_type_json, 4294967295)
    ∷ []

unfoldable pub get_default_length : ℕ → ℕ
get_default_length mysql_type = case_or 255 (lookup mysql_type length_cases)

pub record FieldPacket : Type 0 where
  pub name : Bytes
  pub kind : ℕ
  pub charset : ℕ
  pub column_length : ℕ

unfoldable pub build_mysql_field_packet : Bytes → ℕ → ℕ → FieldPacket
build_mysql_field_packet name pg_type size =
    let kind = postgresql_to_mysql pg_type in
    record {
      name = name;
      kind = kind;
      charset = 33;
      column_length = if ltb 0 size then size else get_default_length kind;
    }
