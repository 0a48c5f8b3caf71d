-- ===== src/Mapper/Errors.antt =====
-- pkg/mapper/errors.go: the codes of MySQL for the errors of PostgreSQL.
use my_proxy.Base.{ℕ, [], ◌∷◌, Option, none, some, Bytes, codes}
use my_proxy.Base.Dict.{Dict, lookup}
use my_proxy.Base.Eq.{bytes_eq}
use my_proxy.Postgres.{PgError, server_error, other_error}

abbrev er_dup_entry : ℕ
er_dup_entry = 1062

abbrev er_no_referenced_row_2 : ℕ
er_no_referenced_row_2 = 1452

abbrev er_tableaccess_denied_error : ℕ
er_tableaccess_denied_error = 1142

abbrev er_no_such_table : ℕ
er_no_such_table = 1146

abbrev er_bad_field_error : ℕ
er_bad_field_error = 1054

abbrev er_parse_error : ℕ
er_parse_error = 1064

abbrev er_lock_deadlock : ℕ
er_lock_deadlock = 1213

abbrev er_query_interrupted : ℕ
er_query_interrupted = 1317

abbrev er_access_denied_error : ℕ
er_access_denied_error = 1045

abbrev er_bad_db_error : ℕ
er_bad_db_error = 1049

abbrev er_dbaccess_denied_error : ℕ
er_dbaccess_denied_error = 1044

abbrev er_lock_wait_timeout : ℕ
er_lock_wait_timeout = 1205

abbrev er_too_many_user_connections : ℕ
er_too_many_user_connections = 1203

abbrev er_con_count_error : ℕ
er_con_count_error = 1040

abbrev er_data_too_long : ℕ
er_data_too_long = 1406

abbrev er_bad_null_error : ℕ
er_bad_null_error = 1048

abbrev er_dup_keyname : ℕ
er_dup_keyname = 1061

abbrev er_check_constraint_violated : ℕ
er_check_constraint_violated = 3819

abbrev er_disk_full : ℕ
er_disk_full = 1021

abbrev er_out_of_resources : ℕ
er_out_of_resources = 1041

abbrev er_lock_deadlock_detected : ℕ
er_lock_deadlock_detected = 1213

abbrev er_warn_data_out_of_range : ℕ
er_warn_data_out_of_range = 1264

abbrev er_division_by_zero : ℕ
er_division_by_zero = 1365

abbrev er_truncated_wrong_value : ℕ
er_truncated_wrong_value = 1292

abbrev er_no_default_for_field : ℕ
er_no_default_for_field = 1364

abbrev pub er_unknown_error : ℕ
er_unknown_error = 1105

abbrev sql_state_to_mysql : Dict Bytes ℕ
sql_state_to_mysql =
    (codes "23505", er_dup_entry)
    ∷ (codes "23503", er_no_referenced_row_2)
    ∷ (codes "42501", er_tableaccess_denied_error)
    ∷ (codes "42P01", er_no_such_table)
    ∷ (codes "42703", er_bad_field_error)
    ∷ (codes "42601", er_parse_error)
    ∷ (codes "40P01", er_lock_deadlock)
    ∷ (codes "57014", er_query_interrupted)
    ∷ (codes "28000", er_access_denied_error)
    ∷ (codes "3D000", er_bad_db_error)
    ∷ (codes "42000", er_dbaccess_denied_error)
    ∷ (codes "42P02", er_no_such_table)
    ∷ (codes "42P10", er_parse_error)
    ∷ (codes "42704", er_bad_field_error)
    ∷ (codes "42846", er_parse_error)
    ∷ (codes "42883", er_parse_error)
    ∷ (codes "55P03", er_lock_wait_timeout)
    ∷ (codes "53300", er_too_many_user_connections)
    ∷ (codes "53400", er_con_count_error)
    ∷ (codes "22001", er_data_too_long)
    ∷ (codes "23502", er_bad_null_error)
    ∷ (codes "42710", er_dup_keyname)
    ∷ (codes "42712", er_dup_keyname)
    ∷ (codes "23514", er_check_constraint_violated)
    ∷ (codes "53100", er_disk_full)
    ∷ (codes "53200", er_out_of_resources)
    ∷ (codes "42939", er_tableaccess_denied_error)
    ∷ (codes "40001", er_lock_deadlock_detected)
    ∷ (codes "23000", er_dup_entry)
    ∷ (codes "22003", er_warn_data_out_of_range)
    ∷ (codes "22012", er_division_by_zero)
    ∷ (codes "22007", er_truncated_wrong_value)
    ∷ (codes "22008", er_truncated_wrong_value)
    ∷ (codes "23001", er_no_default_for_field)
    ∷ []

abbrev code_or_unknown : Option ℕ → ℕ
code_or_unknown none = er_unknown_error
code_or_unknown (some code) = code

unfoldable pub get_mysql_error_code : Bytes → ℕ
get_mysql_error_code sql_state = code_or_unknown (lookup sql_state sql_state_to_mysql)

-- `MapError`; `none` is nil.
unfoldable pub map_error : Option PgError → ℕ × Bytes
map_error none = (0, [])
map_error (some (server_error code message)) =
    (code_or_unknown (lookup code sql_state_to_mysql), message)
map_error (some (other_error text)) = (er_unknown_error, text)
