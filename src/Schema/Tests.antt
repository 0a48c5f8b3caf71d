-- ===== src/Schema/Tests.antt =====
-- The cache on a table `items` with a serial column, and a time to live of 300.
use my_proxy.Base.{ℕ, ◌≢◌, [], some, Bytes, codes, arith, All}
use my_proxy.Schema.{Cache}
use my_proxy.Schema.Tables.{Connection}

-- A lowering for tests: the text itself.
abbrev as_is : Bytes → Bytes
as_is s = s

abbrev serial : Connection
serial = record {
  auto_increment = λ s t. some (codes "id");
  column_rows = λ s t. some [];
  key_rows = λ s t. some [];
}

abbrev empty : Cache
empty = record { tables = []; ttl = 300; next_table_id = 0 }

abbrev shop : Bytes
shop = codes "shop"

abbrev items : Bytes
items = codes "items"

shop-undotted : All (λ (c : ℕ). c ≢ b'.') shop
shop-undotted = (omega arith, (omega arith, (omega arith, (omega arith, tt))))
