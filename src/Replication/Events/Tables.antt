-- ===== src/Replication/Events/Tables.antt =====
-- The table map event of a change, as a client reads it from the encoder's bytes.
use my_proxy.Base.{
  length-map, ℕ, zero, suc, ◌+◌, ◌*◌, ◌/◌, ◌^◌, ◌≤◌, ◌<◌, ◌≡◌, refl, ap, ◌∙◌, Bool, true, false,
  ◌&&◌, ◌||◌, List, [], ◌∷◌, ◌++◌, map, some, Bytes, All, length, replicate, length-replicate, ◌==◌,
  Bool-cases, inl, inr, arith,
}
use my_proxy.Encoder.Columns.{ColumnType, encode_column_meta}
use my_proxy.Encoder.Columns.Bitmap.{
  bit_at, IsByte, or_at-Marked, replicate-IsByte, bit_at-replicate,
}
use my_proxy.Encoder.Columns.Meta.{length-encode_column_meta-le}
use my_proxy.Encoder.Events.{Body, TableMapEvent, bitmap_or_ones, encode_table_map_event}
use my_proxy.Encoder.Events.Tables.{
  Shape, read_table_map, FitsTable, read_table_map-encode_table_map_event,
}
use my_proxy.Replication.Changes.{Column, ChangeEvent, Core, Now}
use my_proxy.Replication.Events.{
  event_of, nullable_bits, columns_of, table_map_with, table_map_event, create_table_map_event,
}

-- Whether column `j` of columns that start at column `i` is there and is nullable.
unfoldable pub is_nullable : ℕ → List Column → ℕ → Bool
is_nullable i [] j = false
is_nullable i (c ∷ columns) j = (c.nullable && j == i) || is_nullable (i + 1) columns j

-- What the loop over the columns makes of a bitmap.
record Nulled (i : ℕ) (columns : List Column) (before after : Bytes) : Type 0 where
  same_length : length after ≡ length before
  bits : (j : ℕ) → bit_at j after ≡ (is_nullable i columns j || bit_at j before)

marked_bits : (a b c d e : Bool) → e ≡ (b || d) → d ≡ (a || c) → e ≡ ((a || b) || c)
marked_bits true true c d e p q = ground arith
marked_bits true false c d e p q = ground arith
marked_bits false b c d e p q = p ∙ ap (λ t. b || t) q

nullable_bits-Nulled :
    (i : ℕ) (columns : List Column) (bitmap : Bytes)
    → All IsByte bitmap
    → i + length columns ≤ 8 * length bitmap
    → (after : Bytes) × (nullable_bits i columns bitmap ≡ some after)
      × Nulled i columns bitmap after
unfolding nullable_bits is_nullable
nullable_bits-Nulled i [] bitmap bytes h =
    (bitmap, refl, record { same_length = refl; bits = λ j. refl })
nullable_bits-Nulled i (c ∷ columns) bitmap bytes h = elim (Bool-cases c.nullable) [
  | inl permits ↦
      let (marked, found, m) = or_at-Marked i bitmap bytes (omega arith) in
      let (after, same, e) =
        nullable_bits-Nulled (i + 1) columns marked m.bytes (omega (arith, m.same_length)) in
      (
        after,
        rw (nullable_bits, permits, found) same,
        record {
          same_length = e.same_length ∙ m.same_length;
          bits = λ j. rw permits (
              marked_bits (j == i) (is_nullable (i + 1) columns j) (bit_at j bitmap) _ _ (e.bits j)
                (m.bits j));
        },
      )
  | inr forbids ↦
      let (after, same, e) = nullable_bits-Nulled (i + 1) columns bitmap bytes (omega arith) in
      (
        after,
        rw (nullable_bits, forbids) same,
        record { same_length = e.same_length; bits = λ j. rw forbids (e.bits j) },
      )
]

-- The table map event is created: its bitmap has one bit for each column.
pub create_table_map_event-some :
    (s : Core) (now : Now) (e : ChangeEvent)
    → (bitmap : Bytes) × (create_table_map_event s now e
        ≡ some (event_of s now 19 (Body.table_map (table_map_with e bitmap))))
      × (length bitmap ≡ (length e.columns + 7) / 8)
      × ((j : ℕ) → bit_at j bitmap ≡ is_nullable 0 e.columns j)
unfolding create_table_map_event
create_table_map_event-some s now e =
    let n = (length e.columns + 7) / 8 in
    let (bitmap, same, k) =
      nullable_bits-Nulled 0 e.columns (replicate n 0) (replicate-IsByte n)
        (omega (arith, length-replicate n (zero))) in
    (
      bitmap,
      ap (table_map_event s now e) same,
      k.same_length ∙ length-replicate n 0,
      λ j.
          k.bits j
          ∙ ap (λ b. is_nullable 0 e.columns j || b) (bit_at-replicate j n)
          ∙ or_false (is_nullable 0 e.columns j),
    )
  where
    or_false : (b : Bool) → (b || false) ≡ b
    or_false true = refl
    or_false false = refl

-- The widths of a change's names and numbers.
pub record FitsChange (e : ChangeEvent) : Type 0 where
  pub table_id_fits : e.table_id < 2 ^ 48
  pub schema_fits : length e.schema < 2 ^ 8
  pub table_fits : length e.table < 2 ^ 8
  pub columns_fit : length e.columns < 2 ^ 62

bitmap_or_ones_exact :
    (n : ℕ) (bitmap : Bytes) → length bitmap ≡ n → bitmap_or_ones n bitmap ≡ bitmap
unfolding bitmap_or_ones
bitmap_or_ones_exact zero [] h = refl
bitmap_or_ones_exact (suc n) [] h = absurd (omega arith)
bitmap_or_ones_exact n (b ∷ bs) h = refl

table_map_with-FitsTable :
    (e : ChangeEvent) (bitmap : Bytes)
    → FitsChange e
    → length bitmap ≡ (length e.columns + 7) / 8
    → FitsTable (table_map_with e bitmap)
table_map_with-FitsTable e bitmap fits h = record {
  table_id_fits = fits.table_id_fits;
  flags_fits = omega arith;
  schema_fits = fits.schema_fits;
  table_fits = fits.table_fits;
  column_count_fits = omega (arith, fits.columns_fit);
  metadata_fits = omega (
    arith,
    length-encode_column_meta-le (columns_of e.columns).column_types
        (columns_of e.columns).column_meta,
    length-map (λ (c : Column). c.column_type) e.columns,
    fits.columns_fit,
  );
  one_type_each = length-map (λ (c : Column). c.column_type) e.columns;
  one_bit_each = ap length (bitmap_or_ones_exact ((length e.columns + 7) / 8) bitmap h) ∙ h;
}

-- Where the library's reader reads what its writer of lengths writes, and the change's names and
-- numbers fit their widths: the server creates a table map event, and a client reads from its
-- encoding the table's number and names, the codes of the columns' types in their order, and a
-- bitmap of one bit for each column, set exactly for the columns that are nullable.
pub create_table_map_event-read :
    (lenenc : ℕ → Bytes) (read_lenenc : Bytes → ℕ × Bytes) (code_of : ColumnType → ℕ) (s : Core)
    (now : Now) (e : ChangeEvent)
    → ((n : ℕ) (rest : Bytes) → n < 2 ^ 64 → read_lenenc (lenenc n ++ rest) ≡ (n, rest))
    → FitsChange e
    → (bitmap : Bytes) × (create_table_map_event s now e
        ≡ some (event_of s now 19 (Body.table_map (table_map_with e bitmap))))
      × (read_table_map read_lenenc
            (encode_table_map_event lenenc code_of (table_map_with e bitmap))
          ≡ record {
            table_id = e.table_id;
            flags = 0;
            schema = e.schema;
            table = e.table;
            types = map code_of (map (λ (c : Column). c.column_type) e.columns);
            metadata =
                encode_column_meta
                  (columns_of e.columns).column_types
                  (columns_of e.columns).column_meta;
            null_bitmap = bitmap;
          })
      × ((j : ℕ) → bit_at j bitmap ≡ is_nullable 0 e.columns j)
create_table_map_event-read lenenc read_lenenc code_of s now e reads fits =
    let (bitmap, created, size, bits) = create_table_map_event-some s now e in
    (
      bitmap,
      created,
      read_table_map-encode_table_map_event lenenc read_lenenc code_of (table_map_with e bitmap)
            reads (table_map_with-FitsTable e bitmap fits size)
          ∙ ap (shape_with (table_map_with e bitmap))
              (bitmap_or_ones_exact ((length e.columns + 7) / 8) bitmap size),
      bits,
    )
  where
    shape_with : TableMapEvent → Bytes → Shape
    shape_with m bitmap = record {
      table_id = m.table_id;
      flags = m.flags;
      schema = m.schema;
      table = m.table;
      types = map code_of m.columns.column_types;
      metadata = encode_column_meta m.columns.column_types m.columns.column_meta;
      null_bitmap = bitmap;
    }
