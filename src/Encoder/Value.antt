-- ===== src/Encoder/Value.antt =====
-- The dynamic values that a row holds, by the Go type that the encoder's switches tell apart.
-- A float stands for its IEEE 754 bits; `Other` is any type that no switch names.
use my_proxy.Base.{ℕ, Bool, Bytes}
use my_proxy.Base.Int.{ℤ}

-- A `time.Time` in its parts, of a year from 0 on, with the Unix time of the same instant.
pub record Time : Type 0 where
  pub year : ℕ
  pub month : ℕ
  pub day : ℕ
  pub hour : ℕ
  pub minute : ℕ
  pub second : ℕ
  pub nanosecond : ℕ
  pub unix : ℤ

pub data Value : Type 0 where
  int8 : ℤ → Value
  int16 : ℤ → Value
  int32 : ℤ → Value
  int64 : ℤ → Value
  int : ℤ → Value
  bool : Bool → Value
  float32 : ℕ → Value
  float64 : ℕ → Value
  string : Bytes → Value
  bytes : Bytes → Value
  time : Time → Value
  other : Value
