-- ===== src/Encoder/Events/Tables.antt =====
-- A client's reading of the payload of a table map event.
-- `lenenc` and its reader are the library's.
use mathlib.Core.List.{append-nil}
use my_proxy.Base.{
  length-map, ℕ, ◌+◌, ◌/◌, ◌<◌, ◌^◌, ◌≡◌, refl, sym, ap, ◌∙◌, [], ◌∷◌, ◌++◌, map, Bytes, length,
  take, drop, replicate, length-replicate, take-append, drop-append, arith,
}
use my_proxy.Base.Copy.{joined, write_fields-joined}
use my_proxy.Base.Wire.{put_le, get_le, length-put_le, get_le-put_le}
use my_proxy.Encoder.Columns.{ColumnType, encode_column_meta}
use my_proxy.Encoder.Events.{
  TableMapEvent, table_id_bytes, bitmap_or_ones, table_map_fields, encode_table_map_event,
}

-- What a client reads of a table: the codes of the types, and the packed metadata.
pub record Shape : Type 0 where
  pub table_id : ℕ
  pub flags : ℕ
  pub schema : Bytes
  pub table : Bytes
  pub types : Bytes
  pub metadata : Bytes
  pub null_bitmap : Bytes

abbrev make_shape : ℕ → ℕ → Bytes → Bytes → Bytes → Bytes → Bytes → Shape
make_shape a b c d e f g = record {
  table_id = a;
  flags = b;
  schema = c;
  table = d;
  types = e;
  metadata = f;
  null_bitmap = g;
}

-- A text behind a byte of its length, with a zero byte after it.
read_name : Bytes → Bytes × Bytes
read_name bs = let n = get_le (take 1 bs) in (take n (drop 1 bs), drop 1 (drop n (drop 1 bs)))

-- Some bytes behind their length-encoded number.
abbrev cut : ℕ × Bytes → Bytes × Bytes
cut (n, bs) = (take n bs, drop n bs)

module _ (read_lenenc : Bytes → ℕ × Bytes) where
  read_lists : ℕ → ℕ → Bytes → Bytes → Bytes × Bytes → Shape
  read_lists id flags schema table (types, bs) =
      let metadata = cut (read_lenenc bs) in
      make_shape id flags schema table types metadata.0 metadata.1

  read_tables : ℕ → ℕ → Bytes → Bytes × Bytes → Shape
  unfolding read_lists
  read_tables id flags schema (table, bs) = read_lists id flags schema table (cut (read_lenenc bs))

  read_names : ℕ → ℕ → Bytes × Bytes → Shape
  unfolding read_tables
  read_names id flags (schema, bs) = read_tables id flags schema (read_name bs)

  pub read_table_map : Bytes → Shape
  unfolding read_names
  read_table_map bs =
      read_names (get_le (take 6 bs)) (get_le (take 2 (drop 6 bs))) (read_name (drop 8 bs))

-- The widths of the payload's fields, and a type and a bit for each column.
pub record FitsTable (e : TableMapEvent) : Type 0 where
  pub table_id_fits : e.table_id < 2 ^ 48
  pub flags_fits : e.flags < 2 ^ 16
  pub schema_fits : length e.schema < 2 ^ 8
  pub table_fits : length e.table < 2 ^ 8
  pub column_count_fits : e.column_count < 2 ^ 64
  pub metadata_fits :
      length (encode_column_meta e.columns.column_types e.columns.column_meta) < 2 ^ 64
  pub one_type_each : length e.columns.column_types ≡ e.column_count
  pub one_bit_each :
      length (bitmap_or_ones ((e.column_count + 7) / 8) e.null_bitmap) ≡ (e.column_count + 7) / 8

read_name_lem :
    (s rest : Bytes)
    → length s < 2 ^ 8
    → read_name (put_le 1 (length s) ++ (s ++ (0 ∷ rest))) ≡ (s, rest)
unfolding read_name put_le
read_name_lem s rest h =
    rw (get_le-put_le 1 (length s) h, take-append s (0 ∷ rest), drop-append s (0 ∷ rest)) refl

length-table_id_bytes : (id : ℕ) → length (table_id_bytes id) ≡ 6
unfolding table_id_bytes put_le
length-table_id_bytes id = refl

read_table_id :
    (id : ℕ) (rest : Bytes) → id < 2 ^ 48 → get_le (take 6 (table_id_bytes id ++ rest)) ≡ id
unfolding table_id_bytes put_le get_le
read_table_id id rest h = omega arith

module _ (lenenc : ℕ → Bytes) (read_lenenc : Bytes → ℕ × Bytes) (code_of : ColumnType → ℕ) where
  encode_table_map_event-joined :
      (e : TableMapEvent)
      → FitsTable e
      → encode_table_map_event lenenc code_of e ≡ joined (table_map_fields lenenc code_of e)
  unfolding encode_table_map_event table_map_fields
  encode_table_map_event-joined e fits =
      write_fields-joined [] (table_map_fields lenenc code_of e) (replicate _ 0)
        (
          length-table_id_bytes _,
          (
            length-put_le 2 _,
            (
              length-put_le 1 _,
              (
                refl,
                (
                  refl,
                  (
                    length-put_le 1 _,
                    (
                      refl,
                      (
                        refl,
                        (
                          refl,
                          (
                            length-map code_of _ ∙ fits.one_type_each,
                            (refl, (refl, (fits.one_bit_each, tt))),
                          ),
                        ),
                      ),
                    ),
                  ),
                ),
              ),
            ),
          ),
        )
        (length-replicate _ 0 ∙ omega arith)

  cut_lem :
      (s rest : Bytes) (n : ℕ)
      → ((n : ℕ) (rest : Bytes) → n < 2 ^ 64 → read_lenenc (lenenc n ++ rest) ≡ (n, rest))
      → n < 2 ^ 64
      → length s ≡ n
      → cut (read_lenenc (lenenc n ++ (s ++ rest))) ≡ (s, rest)
  cut_lem s rest n reads h e =
      ap cut (reads n (s ++ rest) h)
      ∙ ap (λ k. (take k (s ++ rest), drop k (s ++ rest))) (sym e)
      ∙ rw (take-append s rest, drop-append s rest) refl

  read_names_of :
      {a a' b b' : ℕ} (c : Bytes × Bytes)
      → a ≡ a'
      → b ≡ b'
      → read_names read_lenenc a b c ≡ read_names read_lenenc a' b' c
  read_names_of c p q = cc

  read_front :
      (id flags : ℕ) (rest : Bytes)
      → id < 2 ^ 48
      → flags < 2 ^ 16
      → read_table_map read_lenenc (table_id_bytes id ++ (put_le 2 flags ++ rest))
        ≡ read_names read_lenenc id flags (read_name rest)
  unfolding read_table_map table_id_bytes put_le
  read_front id flags rest h k =
      read_names_of (read_name rest) (read_table_id id (put_le 2 flags ++ rest) h)
        (get_le-put_le 2 flags k)

  -- Where the library's reader reads what its writer of lengths writes, a table map event whose
  -- fields fit their widths, with a type and a bitmap of one bit for each column, is read back:
  -- its numbers, names and types, the packed metadata, and its bitmap, or the one of ones.
  pub read_table_map-encode_table_map_event :
      (e : TableMapEvent)
      → ((n : ℕ) (rest : Bytes) → n < 2 ^ 64 → read_lenenc (lenenc n ++ rest) ≡ (n, rest))
      → FitsTable e
      → read_table_map read_lenenc (encode_table_map_event lenenc code_of e) ≡ record {
        table_id = e.table_id;
        flags = e.flags;
        schema = e.schema;
        table = e.table;
        types = map code_of e.columns.column_types;
        metadata = encode_column_meta e.columns.column_types e.columns.column_meta;
        null_bitmap = bitmap_or_ones ((e.column_count + 7) / 8) e.null_bitmap;
      }
  unfolding read_names read_tables read_lists table_map_fields
  read_table_map-encode_table_map_event e reads fits =
      let types = map code_of e.columns.column_types in
      let metadata = encode_column_meta e.columns.column_types e.columns.column_meta in
      let bitmap = bitmap_or_ones ((e.column_count + 7) / 8) e.null_bitmap in
      let after_types = lenenc (length metadata) ++ (metadata ++ (bitmap ++ [])) in
      let lists = lenenc e.column_count ++ (types ++ after_types) in
      let table = put_le 1 (length e.table) ++ (e.table ++ (0 ∷ lists)) in
      let shape = make_shape e.table_id e.flags e.schema e.table in
      ap (read_table_map read_lenenc) (encode_table_map_event-joined e fits)
      ∙ read_front e.table_id e.flags _ fits.table_id_fits fits.flags_fits
      ∙ ap (read_names read_lenenc e.table_id e.flags)
          (read_name_lem e.schema table fits.schema_fits)
      ∙ ap (read_tables read_lenenc e.table_id e.flags e.schema)
          (read_name_lem e.table lists fits.table_fits)
      ∙ ap (read_lists read_lenenc e.table_id e.flags e.schema e.table) (
          cut_lem types after_types e.column_count reads fits.column_count_fits
            (length-map code_of _ ∙ fits.one_type_each))
      ∙ ap (λ c. shape types c.0 c.1)
          (cut_lem metadata (bitmap ++ []) (length metadata) reads fits.metadata_fits refl)
      ∙ ap (shape types metadata) (append-nil bitmap)
