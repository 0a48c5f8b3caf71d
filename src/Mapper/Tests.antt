-- ===== src/Mapper/Tests.antt =====
-- The mapper on small inputs.
use my_proxy.Base.{◌≡◌, refl, true, [], none, some, Bytes, codes, if◌then◌else◌, ℕ, ◌+◌}
use my_proxy.Base.Eq.{equal}
use my_proxy.Base.Dict.{lookup}
use my_proxy.Base.Text.{has_prefix, to_upper, contains_byte}
use my_proxy.Base.Search.{index, split_words, trim_left_func, trim_right_func, to_lower}
use my_proxy.Postgres.{other_error, refused, Postgres}
use my_proxy.Mapper.Errors.{get_mysql_error_code}
use my_proxy.Mapper.Kinds.{postgresql_to_mysql, mysql_type_to_string}
use my_proxy.Mapper.Variables.Table.{read_only, mysql_to_postgres_vars}
use my_proxy.Mapper.Variables.Access.{get_var_mapping, handle_set_global, get_mysql_var_value}
use my_proxy.Mapper.Show.{extract_table_name, behind_keyword}
use my_proxy.Mapper.Variables.ReadBack.{get_mysql_var_value-handle_set_global}

unique_violation : get_mysql_error_code (codes "23505") ≡ 1062
unfolding get_mysql_error_code lookup equal
unique_violation = refl

numeric_name : mysql_type_to_string (postgresql_to_mysql 1700) ≡ codes "DECIMAL"
unfolding mysql_type_to_string postgresql_to_mysql lookup
numeric_name = refl

-- A server that refuses every statement.
abbrev broken : Postgres ℕ Bytes
broken = record {
  exec = λ sql args c. (c + 1, refused (other_error []));
  query = λ sql args c. (c + 1, refused (other_error []));
  query_text = λ sql c. (c + 1, refused (other_error []));
  scan_id = λ r. none;
}

mapped : get_var_mapping (codes "Read_Only") ≡ some read_only
unfolding get_var_mapping lookup equal to_lower mysql_to_postgres_vars
mapped = refl

get_mysql_var_value-handle_set_global_example :
    get_mysql_var_value broken
      (codes "READ_ONLY")
      (handle_set_global broken (codes "Read_Only") (codes "ON") [] 0).0
      7
    ≡ (if equal (to_lower (codes "Read_Only")) (to_lower (codes "READ_ONLY"))
        then (7, (codes "ON", (true, none)))
        else get_mysql_var_value broken (codes "READ_ONLY") [] 7)
get_mysql_var_value-handle_set_global_example =
    get_mysql_var_value-handle_set_global broken (codes "Read_Only") (codes "READ_ONLY")
      (codes "ON") [] 0 7 read_only mapped

-- The keyword IN is found in INDEX.
index_of_dex : extract_table_name (codes "SHOW INDEX IN users") ≡ codes "DEX"
unfolding extract_table_name behind_keyword index has_prefix to_upper split_words trim_left_func
    trim_right_func contains_byte
index_of_dex = refl
