-- ===== src/Schema/Types.antt =====
-- `pgTypeToMySQL`, with the values of the constants that it names.
use my_proxy.Base.{ℕ, ◌+◌, ◌*◌, ◌%◌, ◌^◌, ◌||◌, Bytes, codes, ◌==◌, if◌then◌else◌}
use my_proxy.Base.Eq.{equal}

-- A length of 0 is none, for which the default stands; the result is a uint16.
abbrev length_or : ℕ → ℕ → ℕ
length_or default max_length = (if max_length == 0 then default else max_length) % 2 ^ 16

unfoldable pub pg_type_to_mysql : Bytes → ℕ → ℕ × ℕ
pg_type_to_mysql pg_type max_length =
    if equal pg_type (codes "smallint")
    then (2, 0)
    else if equal pg_type (codes "integer")
    then (3, 0)
    else if equal pg_type (codes "bigint")
    then (8, 0)
    else if equal pg_type (codes "real")
    then (4, 4)
    else if equal pg_type (codes "double precision")
    then (5, 8)
    else if equal pg_type (codes "numeric") || equal pg_type (codes "decimal")
    then (0xf6, 10 * 2 ^ 8 + 2)
    else if equal pg_type (codes "boolean")
    then (1, 0)
    else if equal pg_type (codes "character varying") || equal pg_type (codes "varchar")
    then (15, length_or 255 max_length)
    else if equal pg_type (codes "character") || equal pg_type (codes "char")
    then (0xfe, length_or 1 max_length)
    else if equal pg_type (codes "text") || equal pg_type (codes "bytea")
    then (0xfc, 2)
    else if equal pg_type (codes "date")
    then (10, 0)
    else if equal pg_type (codes "time")
        || (equal pg_type (codes "time without time zone")
            || equal pg_type (codes "time with time zone"))
    then (11, 0)
    else if equal pg_type (codes "timestamp")
        || (equal pg_type (codes "timestamp without time zone")
            || equal pg_type (codes "timestamp with time zone"))
    then (7, 0)
    else if equal pg_type (codes "json") || equal pg_type (codes "jsonb")
    then (0xf5, 4)
    else if equal pg_type (codes "uuid")
    then (0xfe, 36)
    else (15, 255)
