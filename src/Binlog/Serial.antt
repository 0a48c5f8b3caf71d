-- ===== src/Binlog/Serial.antt =====
-- pkg/binlog/binlog.go: `serializeBinary`. The buffer of `totalLen` bytes is filled from left to
-- right with no gap, so it is the concatenation of its fields.
pub mod Layout
use my_proxy.Base.{ℕ, ◌+◌, ◌∷◌, [], ◌++◌, Bytes, length}
use my_proxy.Base.Int.{bits}
use my_proxy.Base.Wire.{put_be}
use my_proxy.Binlog.Event.{BinlogEvent, event_code}

unfoldable pub total_len : BinlogEvent → ℕ
total_len e =
    4
    + 8
    + 1
    + 2
    + length e.database
    + 2
    + length e.table
    + 4
    + length e.mysql_query
    + 4
    + length e.pg_query
    + 8
    + 8

-- A text behind its length in `k` bytes; the length wraps, as in `uint16(len(s))`.
pub put_text : ℕ → Bytes → Bytes
put_text k s = put_be k (length s) ++ s

unfoldable pub serialize_binary : BinlogEvent → Bytes
serialize_binary e =
    put_be 4 (total_len e)
    ++ (put_be 8 (bits 64 e.timestamp)
        ++ (event_code e.event_type
            ∷ (put_text 2 e.database
                ++ (put_text 2 e.table
                    ++ (put_text 4 e.mysql_query
                        ++ (put_text 4 e.pg_query
                            ++ (put_be 8 (bits 64 e.rows_affected)
                                ++ put_be 8 (bits 64 e.exec_time))))))))
