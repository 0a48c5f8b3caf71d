-- ===== src/Mapper/Show/Columns.antt =====
-- pkg/mapper/show.go: the texts of the queries for the columns and the indexes of a table.
use my_proxy.Base.{[], ◌∷◌, Bytes, codes}
use my_proxy.Mapper.Show.Texts.{concat}

unfoldable pub full_columns_sql : Bytes → Bytes → Bytes
full_columns_sql schema table = concat (
    codes "\n"
    ∷ codes "\t\t\tSELECT\n"
    ∷ codes "\t\t\t\tcolumn_name AS \"Field\",\n"
    ∷ codes "\t\t\t\tCASE\n"
    ∷ codes "\t\t\t\t\tWHEN data_type = 'integer' THEN 'int(11)'\n"
    ∷ codes "\t\t\t\t\tWHEN data_type = 'smallint' THEN 'smallint(6)'\n"
    ∷ codes "\t\t\t\t\tWHEN data_type = 'bigint' THEN 'bigint(20)'\n"
    ∷ codes "\t\t\t\t\tWHEN data_type = 'serial' THEN 'int(11)'\n"
    ∷ codes "\t\t\t\t\tWHEN data_type = 'bigserial' THEN 'bigint(20)'\n"
    ∷ codes "\t\t\t\t\tWHEN data_type = 'character varying' THEN 'varchar(' || COALESCE(c"
    ∷ codes "haracter_maximum_length::text, '255') || ')'\n"
    ∷ codes "\t\t\t\t\tWHEN data_type = 'character' THEN 'char(' || COALESCE(character_ma"
    ∷ codes "ximum_length::text, '1') || ')'\n"
    ∷ codes "\t\t\t\t\tWHEN data_type = 'text' THEN 'text'\n"
    ∷ codes "\t\t\t\t\tWHEN data_type = 'boolean' THEN 'tinyint(1)'\n"
    ∷ codes "\t\t\t\t\tWHEN data_type = 'numeric' THEN 'decimal(' || COALESCE(numeric_pre"
    ∷ codes "cision::text, '10') || ',' || COALESCE(numeric_scale::text, '0') || ')'\n"
    ∷ codes "\t\t\t\t\tWHEN data_type = 'real' THEN 'float'\n"
    ∷ codes "\t\t\t\t\tWHEN data_type = 'double precision' THEN 'double'\n"
    ∷ codes "\t\t\t\t\tWHEN data_type = 'date' THEN 'date'\n"
    ∷ codes "\t\t\t\t\tWHEN data_type = 'time without time zone' THEN 'time'\n"
    ∷ codes "\t\t\t\t\tWHEN data_type = 'time with time zone' THEN 'time'\n"
    ∷ codes "\t\t\t\t\tWHEN data_type = 'timestamp without time zone' THEN 'datetime'\n"
    ∷ codes "\t\t\t\t\tWHEN data_type = 'timestamp with time zone' THEN 'timestamp'\n"
    ∷ codes "\t\t\t\t\tWHEN data_type = 'bytea' THEN 'blob'\n"
    ∷ codes "\t\t\t\t\tWHEN data_type = 'json' THEN 'json'\n"
    ∷ codes "\t\t\t\t\tWHEN data_type = 'jsonb' THEN 'json'\n"
    ∷ codes "\t\t\t\t\tWHEN data_type = 'uuid' THEN 'char(36)'\n"
    ∷ codes "\t\t\t\t\tELSE data_type\n"
    ∷ codes "\t\t\t\tEND AS \"Type\",\n"
    ∷ codes "\t\t\t\tCOALESCE(collation_name, '') AS \"Collation\",\n"
    ∷ codes "\t\t\t\tCASE WHEN is_nullable = 'YES' THEN 'YES' ELSE 'NO' END AS \"Null\","
    ∷ codes "\n"
    ∷ codes "\t\t\t\tCASE\n"
    ∷ codes "\t\t\t\t\tWHEN EXISTS (\n"
    ∷ codes "\t\t\t\t\t\tSELECT 1 FROM information_schema.table_constraints tc\n"
    ∷ codes "\t\t\t\t\t\tJOIN information_schema.key_column_usage kcu\n"
    ∷ codes "\t\t\t\t\t\tON tc.constraint_name = kcu.constraint_name\n"
    ∷ codes "\t\t\t\t\t\tAND tc.table_schema = kcu.table_schema\n"
    ∷ codes "\t\t\t\t\t\tWHERE tc.constraint_type = 'PRIMARY KEY'\n"
    ∷ codes "\t\t\t\t\t\tAND kcu.table_schema = "
    ∷ schema
    ∷ codes "\n"
    ∷ codes "\t\t\t\t\t\tAND kcu.table_name = '"
    ∷ table
    ∷ codes "'\n"
    ∷ codes "\t\t\t\t\t\tAND kcu.column_name = c.column_name\n"
    ∷ codes "\t\t\t\t\t) THEN 'PRI'\n"
    ∷ codes "\t\t\t\t\tELSE ''\n"
    ∷ codes "\t\t\t\tEND AS \"Key\",\n"
    ∷ codes "\t\t\t\tCOALESCE(column_default, '') AS \"Default\",\n"
    ∷ codes "\t\t\t\tCASE\n"
    ∷ codes "\t\t\t\t\tWHEN column_default LIKE 'nextval%' THEN 'auto_increment'\n"
    ∷ codes "\t\t\t\t\tELSE ''\n"
    ∷ codes "\t\t\t\tEND AS \"Extra\",\n"
    ∷ codes "\t\t\t\t'select,insert,update,references' AS \"Privileges\",\n"
    ∷ codes "\t\t\t\t'' AS \"Comment\"\n"
    ∷ codes "\t\t\tFROM information_schema.columns c\n"
    ∷ codes "\t\t\tWHERE table_schema = "
    ∷ schema
    ∷ codes "\n"
    ∷ codes "\t\t\t  AND table_name = '"
    ∷ table
    ∷ codes "'\n"
    ∷ codes "\t\t\tORDER BY ordinal_position\n"
    ∷ codes "\t\t"
    ∷ [])

unfoldable pub columns_sql : Bytes → Bytes → Bytes
columns_sql schema table = concat (
    codes "\n"
    ∷ codes "\t\t\tSELECT\n"
    ∷ codes "\t\t\t\tcolumn_name AS \"Field\",\n"
    ∷ codes "\t\t\t\tCASE\n"
    ∷ codes "\t\t\t\t\tWHEN data_type = 'integer' THEN 'int(11)'\n"
    ∷ codes "\t\t\t\t\tWHEN data_type = 'smallint' THEN 'smallint(6)'\n"
    ∷ codes "\t\t\t\t\tWHEN data_type = 'bigint' THEN 'bigint(20)'\n"
    ∷ codes "\t\t\t\t\tWHEN data_type = 'character varying' THEN 'varchar(' || COALESCE(c"
    ∷ codes "haracter_maximum_length::text, '255') || ')'\n"
    ∷ codes "\t\t\t\t\tWHEN data_type = 'character' THEN 'char(' || COALESCE(character_ma"
    ∷ codes "ximum_length::text, '1') || ')'\n"
    ∷ codes "\t\t\t\t\tWHEN data_type = 'text' THEN 'text'\n"
    ∷ codes "\t\t\t\t\tWHEN data_type = 'boolean' THEN 'tinyint(1)'\n"
    ∷ codes "\t\t\t\t\tWHEN data_type = 'numeric' THEN 'decimal(' || COALESCE(numeric_pre"
    ∷ codes "cision::text, '10') || ',' || COALESCE(numeric_scale::text, '0') || ')'\n"
    ∷ codes "\t\t\t\t\tELSE data_type\n"
    ∷ codes "\t\t\t\tEND AS \"Type\",\n"
    ∷ codes "\t\t\t\tCASE WHEN is_nullable = 'YES' THEN 'YES' ELSE 'NO' END AS \"Null\","
    ∷ codes "\n"
    ∷ codes "\t\t\t\tCOALESCE(column_default, '') AS \"Default\",\n"
    ∷ codes "\t\t\t\t'' AS \"Key\",\n"
    ∷ codes "\t\t\t\t'' AS \"Extra\"\n"
    ∷ codes "\t\t\tFROM information_schema.columns\n"
    ∷ codes "\t\t\tWHERE table_schema = "
    ∷ schema
    ∷ codes "\n"
    ∷ codes "\t\t\t  AND table_name = '"
    ∷ table
    ∷ codes "'\n"
    ∷ codes "\t\t\tORDER BY ordinal_position\n"
    ∷ codes "\t\t"
    ∷ [])

unfoldable pub index_sql : Bytes → Bytes → Bytes
index_sql schema table = concat (
    codes "\n"
    ∷ codes "\t\tSELECT\n"
    ∷ codes "\t\t\t'"
    ∷ table
    ∷ codes "' AS \"Table\",\n"
    ∷ codes "\t\t\tCASE WHEN i.indisunique THEN 0 ELSE 1 END AS \"Non_unique\",\n"
    ∷ codes "\t\t\tCASE WHEN i.indisprimary THEN 'PRIMARY' ELSE ic.relname END AS \"Key_n"
    ∷ codes "ame\",\n"
    ∷ codes "\t\t\ta.attnum AS \"Seq_in_index\",\n"
    ∷ codes "\t\t\ta.attname AS \"Column_name\",\n"
    ∷ codes "\t\t\t'A' AS \"Collation\",\n"
    ∷ codes "\t\t\t0::bigint AS \"Cardinality\",\n"
    ∷ codes "\t\t\tNULL AS \"Sub_part\",\n"
    ∷ codes "\t\t\tNULL AS \"Packed\",\n"
    ∷ codes "\t\t\tCASE WHEN a.attnotnull THEN '' ELSE 'YES' END AS \"Null\",\n"
    ∷ codes "\t\t\t'BTREE' AS \"Index_type\",\n"
    ∷ codes "\t\t\t'' AS \"Comment\",\n"
    ∷ codes "\t\t\t'' AS \"Index_comment\",\n"
    ∷ codes "\t\t\t'YES' AS \"Visible\"\n"
    ∷ codes "\t\tFROM pg_index i\n"
    ∷ codes "\t\tJOIN pg_class t ON t.oid = i.indrelid\n"
    ∷ codes "\t\tJOIN pg_class ic ON ic.oid = i.indexrelid\n"
    ∷ codes "\t\tJOIN pg_namespace n ON n.oid = t.relnamespace\n"
    ∷ codes "\t\tJOIN pg_attribute a ON a.attrelid = t.oid AND a.attnum = ANY(i.indkey)"
    ∷ codes "\n"
    ∷ codes "\t\tWHERE n.nspname = "
    ∷ schema
    ∷ codes "\n"
    ∷ codes "\t\t  AND t.relname = '"
    ∷ table
    ∷ codes "'\n"
    ∷ codes "\t\tORDER BY\n"
    ∷ codes "\t\t\tCASE WHEN i.indisprimary THEN 0 ELSE 1 END,\n"
    ∷ codes "\t\t\tic.relname, a.attnum\n"
    ∷ codes "\t"
    ∷ [])
