-- ===== src/Mapper/Show/Texts.antt =====
-- pkg/mapper/show.go: the texts of the queries that answer SHOW and DESCRIBE.
use my_proxy.Base.{List, [], ◌∷◌, ◌++◌, Bytes, codes}

abbrev pub concat : List Bytes → Bytes
concat [] = []
concat (s ∷ rest) = s ++ concat rest

unfoldable pub databases_sql : Bytes
databases_sql = concat (
    codes "\n"
    ∷ codes "\t\tSELECT schema_name AS \"Database\"\n"
    ∷ codes "\t\tFROM information_schema.schemata\n"
    ∷ codes "\t\tWHERE schema_name NOT IN ('pg_catalog', 'information_schema', 'pg_toas"
    ∷ codes "t')\n"
    ∷ codes "\t\tORDER BY schema_name\n"
    ∷ codes "\t"
    ∷ [])

unfoldable pub tables_in_sql : Bytes → Bytes
tables_in_sql schema = concat (
    codes "\n"
    ∷ codes "\t\t\tSELECT table_name AS \"Tables_in_"
    ∷ schema
    ∷ codes "\"\n"
    ∷ codes "\t\t\tFROM information_schema.tables\n"
    ∷ codes "\t\t\tWHERE table_schema = '"
    ∷ schema
    ∷ codes "' AND table_type = 'BASE TABLE'\n"
    ∷ codes "\t\t\tORDER BY table_name\n"
    ∷ codes "\t\t"
    ∷ [])

unfoldable pub tables_sql : Bytes
tables_sql = concat (
    codes "\n"
    ∷ codes "\t\t\tSELECT table_name AS \"Tables\"\n"
    ∷ codes "\t\t\tFROM information_schema.tables\n"
    ∷ codes "\t\t\tWHERE table_schema = current_schema() AND table_type = 'BASE TABLE'\n"
    ∷ codes "\t\t\tORDER BY table_name\n"
    ∷ codes "\t\t"
    ∷ [])

unfoldable pub describe_sql : Bytes → Bytes
describe_sql table = concat (
    codes "\n"
    ∷ codes "\t\tSELECT\n"
    ∷ codes "\t\t\tcolumn_name AS \"Field\",\n"
    ∷ codes "\t\t\tdata_type AS \"Type\",\n"
    ∷ codes "\t\t\tis_nullable AS \"Null\",\n"
    ∷ codes "\t\t\tcolumn_default AS \"Default\",\n"
    ∷ codes "\t\t\tCASE\n"
    ∷ codes "\t\t\t\tWHEN EXISTS (\n"
    ∷ codes "\t\t\t\t\tSELECT 1 FROM information_schema.key_column_usage kcu\n"
    ∷ codes "\t\t\t\t\tWHERE kcu.table_schema = current_schema()\n"
    ∷ codes "\t\t\t\t\t  AND kcu.table_name = c.table_name\n"
    ∷ codes "\t\t\t\t\t  AND kcu.column_name = c.column_name\n"
    ∷ codes "\t\t\t\t) THEN 'PRI'\n"
    ∷ codes "\t\t\t\tELSE ''\n"
    ∷ codes "\t\t\tEND AS \"Key\",\n"
    ∷ codes "\t\t\tCASE\n"
    ∷ codes "\t\t\t\tWHEN column_default LIKE 'nextval%' THEN 'auto_increment'\n"
    ∷ codes "\t\t\t\tELSE ''\n"
    ∷ codes "\t\t\tEND AS \"Extra\"\n"
    ∷ codes "\t\tFROM information_schema.columns c\n"
    ∷ codes "\t\tWHERE c.table_schema = current_schema()\n"
    ∷ codes "\t\t  AND c.table_name = '"
    ∷ table
    ∷ codes "'\n"
    ∷ codes "\t\tORDER BY c.ordinal_position\n"
    ∷ codes "\t"
    ∷ [])

unfoldable pub create_table_sql : Bytes → Bytes
create_table_sql table = concat (
    codes "\n"
    ∷ codes "\t\tSELECT\n"
    ∷ codes "\t\t\t'"
    ∷ table
    ∷ codes "' AS \"Table\",\n"
    ∷ codes "\t\t\t'CREATE TABLE "
    ∷ table
    ∷ codes " (...) ' AS \"Create Table\"\n"
    ∷ codes "\t"
    ∷ [])

unfoldable pub status_sql : Bytes
status_sql = concat (
    codes "\n"
    ∷ codes "\t\tSELECT 'Uptime' AS \"Variable_name\", '0' AS \"Value\"\n"
    ∷ codes "\t\tUNION ALL\n"
    ∷ codes "\t\tSELECT 'Threads_connected', '1'\n"
    ∷ codes "\t\tUNION ALL\n"
    ∷ codes "\t\tSELECT 'Questions', '0'\n"
    ∷ codes "\t\tUNION ALL\n"
    ∷ codes "\t\tSELECT 'Slow_queries', '0'\n"
    ∷ codes "\t"
    ∷ [])

unfoldable pub value_sql : Bytes → Bytes → Bytes
value_sql name value = concat (
    codes "SELECT '"
    ∷ name
    ∷ codes "' AS \"Variable_name\", '"
    ∷ value
    ∷ codes "' AS \"Value\""
    ∷ [])

unfoldable pub settings_sql : Bytes → Bytes
settings_sql pattern = concat (
    codes "\n"
    ∷ codes "\t\t\t\tSELECT name AS \"Variable_name\", setting AS \"Value\"\n"
    ∷ codes "\t\t\t\tFROM pg_settings\n"
    ∷ codes "\t\t\t\tWHERE name LIKE '"
    ∷ pattern
    ∷ codes "'\n"
    ∷ codes "\t\t\t\tORDER BY name\n"
    ∷ codes "\t\t\t"
    ∷ [])

unfoldable pub variables_sql : Bytes
variables_sql = concat (
    codes "\n"
    ∷ codes "\t\tSELECT\n"
    ∷ codes "\t\t\t'version' AS \"Variable_name\",\n"
    ∷ codes "\t\t\tversion() AS \"Value\"\n"
    ∷ codes "\t\tUNION ALL\n"
    ∷ codes "\t\tSELECT 'character_set_client', 'utf8mb4'\n"
    ∷ codes "\t\tUNION ALL\n"
    ∷ codes "\t\tSELECT 'character_set_connection', 'utf8mb4'\n"
    ∷ codes "\t\tUNION ALL\n"
    ∷ codes "\t\tSELECT 'character_set_results', 'utf8mb4'\n"
    ∷ codes "\t\tUNION ALL\n"
    ∷ codes "\t\tSELECT 'character_set_server', 'utf8mb4'\n"
    ∷ codes "\t\tUNION ALL\n"
    ∷ codes "\t\tSELECT 'collation_connection', 'utf8mb4_general_ci'\n"
    ∷ codes "\t\tUNION ALL\n"
    ∷ codes "\t\tSELECT 'collation_server', 'utf8mb4_general_ci'\n"
    ∷ codes "\t\tUNION ALL\n"
    ∷ codes "\t\tSELECT 'autocommit', 'ON'\n"
    ∷ codes "\t\tUNION ALL\n"
    ∷ codes "\t\tSELECT 'max_allowed_packet', '67108864'\n"
    ∷ codes "\t\tUNION ALL\n"
    ∷ codes "\t\tSELECT 'sql_mode', 'TRADITIONAL'\n"
    ∷ codes "\t"
    ∷ [])

unfoldable pub warnings_sql : Bytes
warnings_sql = concat (
    codes "\n"
    ∷ codes "\t\tSELECT\n"
    ∷ codes "\t\t\t'Warning' AS \"Level\",\n"
    ∷ codes "\t\t\t0 AS \"Code\",\n"
    ∷ codes "\t\t\t'' AS \"Message\"\n"
    ∷ codes "\t\tLIMIT 0\n"
    ∷ codes "\t"
    ∷ [])

unfoldable pub global_variables_sql : Bytes
global_variables_sql = concat (
    codes "\n"
    ∷ codes "\t\tSELECT 'binlog_format' AS \"Variable_name\", 'ROW' AS \"Value\"\n"
    ∷ codes "\t\tUNION ALL SELECT 'binlog_row_image', 'FULL'\n"
    ∷ codes "\t\tUNION ALL SELECT 'server_id', '1'\n"
    ∷ codes "\t\tUNION ALL SELECT 'log_bin', 'ON'\n"
    ∷ codes "\t\tUNION ALL SELECT 'gtid_mode', 'OFF'\n"
    ∷ codes "\t\tUNION ALL SELECT 'binlog_checksum', 'CRC32'\n"
    ∷ codes "\t\tUNION ALL SELECT 'max_allowed_packet', '67108864'\n"
    ∷ codes "\t\tUNION ALL SELECT 'character_set_server', 'utf8mb4'\n"
    ∷ codes "\t\tUNION ALL SELECT 'collation_server', 'utf8mb4_general_ci'\n"
    ∷ codes "\t"
    ∷ [])
