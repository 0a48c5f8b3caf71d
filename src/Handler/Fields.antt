-- ===== src/Handler/Fields.antt =====
-- pkg/protocol/mysql/handler.go: `HandleFieldList`. `scan` is the `Scan` of a row into the name of
-- a column, its type, which is not used, and the greatest length of its texts.
use my_proxy.Base.{
  ℕ, ◌%◌, ◌^◌, ◌⊎◌, inl, inr, List, [], ◌∷◌, ◌++◌, Option, none, some, Bytes, codes,
}
use my_proxy.Postgres.{PgError, Sent, refused, sent, Rows, Postgres}
use my_proxy.Mapper.Kinds.{FieldPacket, build_mysql_field_packet}
use my_proxy.Handler.State.{State, Failure, pg_failed, Env, query_conn}
use my_proxy.Handler.Connection.{ensure_pg_conn}

abbrev field_list_sql : Bytes → Bytes
field_list_sql table =
    codes "\n\t\tSELECT column_name, data_type, character_maximum_length\n"
    ++ (codes "\t\tFROM information_schema.columns\n"
        ++ (codes "\t\tWHERE table_schema = current_schema()\n"
            ++ (codes "\t\t  AND table_name = '"
                ++ (table ++ codes "'\n\t\tORDER BY ordinal_position\n\t"))))

-- The length that a field is given, as a uint32.
abbrev field_length : Option ℕ → ℕ
field_length none = 255
field_length (some n) = n % 2 ^ 32

module _ {R : Type 0} (scan : R → PgError ⊎ (Bytes × Option ℕ)) where
  abbrev add_field :
      PgError ⊎ (Bytes × Option ℕ) → Failure ⊎ List FieldPacket → Failure ⊎ List FieldPacket
  add_field (inl e) rest = inl (pg_failed e)
  add_field (inr column) (inl e) = inl e
  add_field (inr (name, size)) (inr fields) =
      inr (build_mysql_field_packet name 0 (field_length size) ∷ fields)

  -- The loop; an error that ends the rows is not looked at.
  unfoldable pub read_fields : List R → Failure ⊎ List FieldPacket
  read_fields [] = inr []
  read_fields (row ∷ rows) = add_field (scan row) (read_fields rows)

  abbrev fields_reply : Sent (Rows R) → Failure ⊎ List FieldPacket
  fields_reply (refused e) = inl (pg_failed e)
  fields_reply (sent rows) = read_fields rows.found

module _ {H C R : Type 0} (pg : Postgres C R) (dial : H → C)
    (scan : R → PgError ⊎ (Bytes × Option ℕ)) where
  abbrev list_behind : Bytes → State H C × Option Failure → State H C × (Failure ⊎ List FieldPacket)
  list_behind table (s, some e) = (s, inl e)
  list_behind table (s, none) =
      let (after, answer) = query_conn pg (field_list_sql table) [] s in
      (after, fields_reply scan answer)

  unfoldable pub handle_field_list :
      Env H → Bytes → State H C → State H C × (Failure ⊎ List FieldPacket)
  handle_field_list env table s = list_behind table (ensure_pg_conn pg dial env s)
