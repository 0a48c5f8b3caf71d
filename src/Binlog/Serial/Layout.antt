-- ===== src/Binlog/Serial/Layout.antt =====
-- A reader of the layout that the comment in `serializeBinary` documents, and what it makes of
-- a record that the writer produced.
use my_proxy.Base.{
  ℕ, ◌+◌, ◌^◌, ◌<◌, ◌≡◌, ◌∷◌, ◌++◌, Option, none, some, Bytes, length, take, drop, length-append,
  take-append, drop-append, arith, ltb, if◌then◌else◌,
}
use mathlib.Core.List.{append_assoc}
use my_proxy.Base.Int.{ℤ, pos, negsuc, bits}
use my_proxy.Base.Wire.{put_be, get_be, get_be_from, length-put_be, get_be-put_be}
use my_proxy.Binlog.Event.{BinlogEvent, event_code}
use my_proxy.Binlog.Serial.{total_len, put_text, serialize_binary}

infixl 5 ◌>>=◌
abbrev pub ◌>>=◌ {ℓ κ} : {A : Type ℓ} {B : Type κ} → Option A → (A → Option B) → Option B
none >>= f = none
some a >>= f = f a

-- The next `n` bytes, and what is behind them.
pub take_bytes : ℕ → Bytes → Option (Bytes × Bytes)
take_bytes n bs = if ltb (length bs) n then none else some (take n bs, drop n bs)

pub take_be : ℕ → Bytes → Option (ℕ × Bytes)
take_be k bs = do (field, rest) ← take_bytes k bs; some (get_be field, rest)

pub take_text : ℕ → Bytes → Option (Bytes × Bytes)
take_text k bs = do (n, rest) ← take_be k bs; take_bytes n rest

-- The fields of a record.
pub record Fields : Type 0 where
  pub total : ℕ
  pub timestamp : ℕ
  pub event_type : ℕ
  pub database : Bytes
  pub table : Bytes
  pub mysql_query : Bytes
  pub pg_query : Bytes
  pub rows_affected : ℕ
  pub exec_time : ℕ

pub parse_record : Bytes → Option (Fields × Bytes)
parse_record bs = do
  (total, r1) ← take_be 4 bs
  (timestamp, r2) ← take_be 8 r1
  (event_type, r3) ← take_be 1 r2
  (database, r4) ← take_text 2 r3
  (table, r5) ← take_text 2 r4
  (mysql_query, r6) ← take_text 4 r5
  (pg_query, r7) ← take_text 4 r6
  (rows_affected, r8) ← take_be 8 r7
  (exec_time, r9) ← take_be 8 r8
  some (
    record {
      total = total;
      timestamp = timestamp;
      event_type = event_type;
      database = database;
      table = table;
      mysql_query = mysql_query;
      pg_query = pg_query;
      rows_affected = rows_affected;
      exec_time = exec_time;
    },
    r9,
  )

abbrev pub fields_of : BinlogEvent → Fields
fields_of e = record {
  total = total_len e;
  timestamp = bits 64 e.timestamp;
  event_type = event_code e.event_type;
  database = e.database;
  table = e.table;
  mysql_query = e.mysql_query;
  pg_query = e.pg_query;
  rows_affected = bits 64 e.rows_affected;
  exec_time = bits 64 e.exec_time;
}

take_bytes-append : (xs ys : Bytes) → take_bytes (length xs) (xs ++ ys) ≡ some (xs, ys)
unfolding take_bytes
take_bytes-append xs ys = ground (arith, length-append xs ys, take-append xs ys, drop-append xs ys)

take_be-put_be :
    (k v : ℕ) (rest : Bytes) → v < 256 ^ k → take_be k (put_be k v ++ rest) ≡ some (v, rest)
unfolding take_be
take_be-put_be k v rest h =
    let e : take_bytes k (put_be k v ++ rest) ≡ some (put_be k v, rest) =
      rw (length-put_be k v) at (take_bytes-append (put_be k v) rest) in
    rw (e, get_be-put_be k v h)

take_text-put_text :
    (k : ℕ) (s rest : Bytes)
    → length s < 256 ^ k
    → take_text k (put_text k s ++ rest) ≡ some (s, rest)
unfolding take_text put_text
take_text-put_text k s rest h =
    rw (append_assoc (put_be k (length s)) s rest)
      (rw (take_be-put_be k (length s) (s ++ rest) h) (take_bytes-append s rest))

take_be_one : (b : ℕ) (rest : Bytes) → take_be 1 (b ∷ rest) ≡ some (b, rest)
unfolding take_be take_bytes get_be_from
take_be_one b rest = ground arith

bits-lt : (z : ℤ) → bits 64 z < 256 ^ 8
bits-lt (pos n) = omega arith
bits-lt (negsuc n) = omega arith

-- The lengths that the fields of the layout can hold.
pub record FitsLayout (e : BinlogEvent) : Type 0 where
  pub database_fits : length e.database < 2 ^ 16
  pub table_fits : length e.table < 2 ^ 16
  pub mysql_query_fits : length e.mysql_query < 2 ^ 32
  pub pg_query_fits : length e.pg_query < 2 ^ 32
  pub total_fits : total_len e < 2 ^ 32

-- The record of an event whose texts fit their length fields is read back field by field,
-- whatever follows it.
pub parse_record-serialize_binary :
    (e : BinlogEvent) (rest : Bytes)
    → FitsLayout e
    → parse_record (serialize_binary e ++ rest) ≡ some (fields_of e, rest)
unfolding parse_record serialize_binary
parse_record-serialize_binary e rest h = simp (
  append_assoc,
  take_be-put_be 4 (total_len e) _ h.total_fits,
  take_be-put_be 8 (bits 64 e.timestamp) _ (bits-lt e.timestamp),
  take_be_one (event_code e.event_type),
  take_text-put_text 2 e.database _ h.database_fits,
  take_text-put_text 2 e.table _ h.table_fits,
  take_text-put_text 4 e.mysql_query _ h.mysql_query_fits,
  take_text-put_text 4 e.pg_query _ h.pg_query_fits,
  take_be-put_be 8 (bits 64 e.rows_affected) _ (bits-lt e.rows_affected),
  take_be-put_be 8 (bits 64 e.exec_time) _ (bits-lt e.exec_time),
)

length-put_text : (k : ℕ) (s : Bytes) → length (put_text k s) ≡ k + length s
unfolding put_text
length-put_text k s =
    omega (arith, length-append (put_be k (length s)) s, length-put_be k (length s))

-- The fields fill the buffer that `totalLen` bytes are made for, whatever the texts.
pub length-serialize_binary : (e : BinlogEvent) → length (serialize_binary e) ≡ total_len e
unfolding serialize_binary total_len
length-serialize_binary e = omega (arith, length-append {0}, length-put_be, length-put_text)
