-- ===== src/Replication/Events/Rows.antt =====
-- The rows event of a change, through the encoder: no index is out of range, and the row data.
use my_proxy.Base.{ℕ, ◌+◌, ◌/◌, ◌≤◌, ◌≡◌, refl, List, [], ◌∷◌, ◌++◌, some, Bytes, All, length}
use my_proxy.Encoder.Columns.{ColumnType, Formats, Row, TableMap, encode_rows, encode_row_data}
use my_proxy.Encoder.Columns.Bitmap.{bit_at}
use my_proxy.Encoder.Columns.Rows.{is_null, values_of, encode_row-bitmap}
use my_proxy.Encoder.Events.{RowsEvent, encode_rows_event, payload_of, rows_payload}
use my_proxy.Replication.Changes.{ChangeEvent, Core, Now}
use my_proxy.Replication.Events.{columns_of, create_rows_event, rows_event, rows_of}

-- The bytes of rows: for each a bitmap with one bit for each column, set exactly for the values
-- that are null, and the other values behind it.
pub data RowsData (f : Formats) (t : TableMap) (column_count : ℕ) : List Row → Bytes → Type 0 where
  no_rows : RowsData f t column_count [] []
  next_row :
      (row : Row) (bitmap : Bytes) (rows : List Row) (rest : Bytes)
      → length bitmap ≡ (column_count + 7) / 8
      → ((j : ℕ) → bit_at j bitmap ≡ is_null 0 row j)
      → RowsData f t column_count rows rest
      → RowsData f t column_count (row ∷ rows) (bitmap ++ (values_of f t 0 row ++ rest))

encode_rows-RowsData :
    (f : Formats) (t : TableMap) (column_count : ℕ) (rows : List Row)
    → All (λ row. length row ≤ column_count) rows
    → (bytes : Bytes) × (encode_rows f t column_count rows ≡ some bytes)
      × RowsData f t column_count rows bytes
unfolding encode_rows
encode_rows-RowsData f t n [] h = ([], refl, RowsData.no_rows)
encode_rows-RowsData f t n (row ∷ rows) (fits, h) =
    let (bitmap, encoded, size, bits) = encode_row-bitmap f t n row fits in
    let (rest, all, d) = encode_rows-RowsData f t n rows h in
    (
      bitmap ++ (values_of f t 0 row ++ rest),
      rw (encode_rows, encoded, all) refl,
      RowsData.next_row row bitmap rows rest size bits d,
    )

encode_rows_event-some :
    (lenenc : ℕ → Bytes) (f : Formats) (e : RowsEvent) (bytes : Bytes)
    → encode_row_data f e.table e.column_count e.rows ≡ some bytes
    → encode_rows_event lenenc f e ≡ some (rows_payload lenenc e bytes)
unfolding encode_rows_event
encode_rows_event-some lenenc f e bytes found = rw (encode_rows_event, found) refl

-- Where no row of a change has more values than the change has columns, the encoder makes a
-- payload of the rows event that the server creates, with no index out of range. The payload ends
-- with the change's rows in order, the old values of an UPDATE before the new ones, each as a
-- bitmap of the null values and the encodings of the others.
pub create_rows_event-RowsData :
    (lenenc : ℕ → Bytes) (code_of : ColumnType → ℕ) (f : Formats) (s : Core) (now : Now)
    (e : ChangeEvent)
    → All (λ row. length row ≤ length e.columns) (rows_of e e.change_type)
    → (bytes : Bytes) × (payload_of lenenc code_of f (create_rows_event s now e).body
        ≡ some (rows_payload lenenc (rows_event e) bytes))
      × RowsData f (columns_of e.columns) (length e.columns) (rows_of e e.change_type) bytes
unfolding create_rows_event encode_row_data payload_of
create_rows_event-RowsData lenenc code_of f s now e h =
    let (bytes, encoded, d) =
      encode_rows-RowsData f (columns_of e.columns) (length e.columns) (rows_of e e.change_type)
        h in
    (bytes, encode_rows_event-some lenenc f (rows_event e) bytes encoded, d)
