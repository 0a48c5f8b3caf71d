-- ===== src/Rewrite/Columns/Ranges.antt =====
-- The numbers that a column of a CREATE TABLE holds, before and behind the conversion.
use my_proxy.Base.{ℕ, ◌^◌, ◌≤◌, ◌<◌, ◌≡◌, Bool, true, false}
use my_proxy.Base.Int.{ℤ, pos}
use my_proxy.Encoder.Integers.Laws.{InRange}
use my_proxy.Rewrite.Types.{Kind}
use my_proxy.Rewrite.Columns.{TableColumnType}

-- The numbers that a MySQL column of a kind of integers holds, by whether it is unsigned.
pub data Stores : Kind → Bool → ℤ → Type 0 where
  signed_tiny : (z : ℤ) → InRange 7 z → Stores Kind.tiny false z
  signed_short : (z : ℤ) → InRange 15 z → Stores Kind.short false z
  signed_int24 : (z : ℤ) → InRange 23 z → Stores Kind.int24 false z
  signed_long : (z : ℤ) → InRange 31 z → Stores Kind.long false z
  signed_long_long : (z : ℤ) → InRange 63 z → Stores Kind.long_long false z
  unsigned_tiny : (n : ℕ) → n < 2 ^ 8 → Stores Kind.tiny true (pos n)
  unsigned_short : (n : ℕ) → n < 2 ^ 16 → Stores Kind.short true (pos n)
  unsigned_int24 : (n : ℕ) → n < 2 ^ 24 → Stores Kind.int24 true (pos n)
  unsigned_long : (n : ℕ) → n < 2 ^ 32 → Stores Kind.long true (pos n)
  unsigned_long_long : (n : ℕ) → n < 2 ^ 64 → Stores Kind.long_long true (pos n)
  years : (u : Bool) (n : ℕ) → n ≤ 2155 → Stores Kind.year u (pos n)

-- The numbers that PostgreSQL's column holds: SMALLINT, INTEGER, BIGINT, or NUMERIC(20,0).
pub data Holds (t : TableColumnType) (z : ℤ) : Type 0 where
  smallint : t.kind ≡ Kind.short → InRange 15 z → Holds t z
  integer : t.kind ≡ Kind.long → InRange 31 z → Holds t z
  bigint : t.kind ≡ Kind.long_long → InRange 63 z → Holds t z
  numeric_20 :
      (n : ℕ)
      → t.kind ≡ Kind.new_decimal
      → t.flen ≡ 20
      → t.decimals ≡ 0
      → z ≡ pos n
      → n < 10 ^ 20
      → Holds t z

-- A signed column that holds a number, with no leading zeros.
pub record Fits (z : ℤ) (t : TableColumnType) : Type 0 where
  pub holds : Holds t z
  pub signed : t.unsigned ≡ false
  pub unfilled : t.zerofill ≡ false
