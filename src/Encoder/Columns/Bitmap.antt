-- ===== src/Encoder/Columns/Bitmap.antt =====
-- The null bitmap of a row: a bit that is set, and the bits beside it.
use Prim.Native.Nat.{bit_or}
use my_proxy.Base.{
  ℕ, zero, suc, ◌/◌, ◌%◌, ◌^◌, ◌<◌, ◌≡◌, ◌≢◌, refl, sym, ap, ◌∙◌, Bool, true, false, not, ◌&&◌,
  ◌||◌, [], ◌∷◌, some, Bytes, All, length, get_or, replicate, ltb, ◌==◌, ==_iff, arith, Bool-cases,
  inl, inr, ltb→lt,
}
use my_proxy.Encoder.Columns.{or_at}

pub test_bit : ℕ → ℕ → Bool
test_bit k b = (b / 2 ^ k % 2) == 1

-- Bit `i` of a bitmap, as a client numbers the columns.
abbrev pub bit_at : ℕ → Bytes → Bool
bit_at i bitmap = test_bit (i % 8) (get_or bitmap (i / 8) 0)

-- A test that holds of every number below `n`.
every : (ℕ → Bool) → ℕ → Bool
every test zero = true
every test (suc k) = every test k && test k

every-lt : (test : ℕ → Bool) (n : ℕ) → every test n ≡ true → (k : ℕ) → k < n → test k ≡ true
unfolding every
every-lt test zero passed k below = absurd (omega arith)
every-lt test (suc n) passed k below = elim (Bool-cases (k == n)) [
  | inl last ↦ ground (arith, ap test ((==_iff k n).0 last))
  | inr other ↦ every-lt test n (ground arith) k (ground arith)
]

same : Bool → Bool → Bool
same true b = b
same false b = not b

same_sound : (a b : Bool) → same a b ≡ true → a ≡ b
unfolding same
same_sound true b h = sym h
same_sound false b h = ground arith

bit_table :
    every
      (λ k.
        every
          (λ j. every (λ b. same (test_bit j (bit_or b (2 ^ k))) ((j == k) || test_bit j b)) 256)
          8)
      8
    ≡ true
unfolding every same test_bit
bit_table = refl

test_bit-or :
    (j k b : ℕ)
    → j < 8
    → k < 8
    → b < 256
    → test_bit j (bit_or b (2 ^ k)) ≡ ((j == k) || test_bit j b)
test_bit-or j k b hj hk hb =
    same_sound _ _ (every-lt _ 256 (every-lt _ 8 (every-lt _ 8 bit_table k hk) j hj) b hb)

byte_table : every (λ k. every (λ b. ltb (bit_or b (2 ^ k)) 256) 256) 8 ≡ true
unfolding every
byte_table = refl

bit_or-lt : (k b : ℕ) → k < 8 → b < 256 → bit_or b (2 ^ k) < 256
bit_or-lt k b hk hb = ltb→lt _ _ (every-lt _ 256 (every-lt _ 8 byte_table k hk) b hb)

abbrev pub IsByte : ℕ → Type 0
IsByte b = b < 256

get_or-IsByte : (bitmap : Bytes) (i : ℕ) → All IsByte bitmap → get_or bitmap i 0 < 256
get_or-IsByte [] i bytes = omega arith
get_or-IsByte (b ∷ bs) zero (byte, bytes) = byte
get_or-IsByte (b ∷ bs) (suc i) (byte, bytes) = get_or-IsByte bs i bytes

-- What one `|=` does to the bytes of a bitmap.
record Ored (at k : ℕ) (bitmap marked : Bytes) : Type 0 where
  same_length : length marked ≡ length bitmap
  bytes : All IsByte marked
  here : get_or marked at 0 ≡ bit_or (get_or bitmap at 0) (2 ^ k)
  others : (j : ℕ) → j ≢ at → get_or marked j 0 ≡ get_or bitmap j 0

get_or-tail : (j c b : ℕ) (bs : Bytes) → j ≢ 0 → get_or (c ∷ bs) j 0 ≡ get_or (b ∷ bs) j 0
get_or-tail zero c b bs ne = absurd (ne refl)
get_or-tail (suc j) c b bs ne = refl

get_or-cons :
    (at j b : ℕ) (bs cs : Bytes)
    → ((j : ℕ) → j ≢ at → get_or cs j 0 ≡ get_or bs j 0)
    → j ≢ suc at
    → get_or (b ∷ cs) j 0 ≡ get_or (b ∷ bs) j 0
get_or-cons at zero b bs cs h ne = refl
get_or-cons at (suc j) b bs cs h ne = h j (λ e. ne (ap suc e))

or_at-Ored :
    (at k : ℕ) (bitmap : Bytes)
    → k < 8
    → All IsByte bitmap
    → at < length bitmap
    → (marked : Bytes) × (or_at at (2 ^ k) bitmap ≡ some marked) × Ored at k bitmap marked
unfolding or_at
or_at-Ored at k [] hk bytes h = absurd (omega arith)
or_at-Ored zero k (b ∷ bs) hk (byte, bytes) h = (
  bit_or b (2 ^ k) ∷ bs,
  refl,
  record {
    same_length = refl;
    bytes = (bit_or-lt k b hk byte, bytes);
    here = refl;
    others = λ j ne. get_or-tail j _ b bs ne;
  },
)
or_at-Ored (suc at) k (b ∷ bs) hk (byte, bytes) h =
    let (rest, found, ored) = or_at-Ored at k bs hk bytes (omega arith) in
    (
      b ∷ rest,
      rw found refl,
      record {
        same_length = ap suc ored.same_length;
        bytes = (byte, ored.bytes);
        here = ored.here;
        others = λ j ne. get_or-cons at j b bs rest ored.others ne;
      },
    )

-- A bitmap in which column `i` has been marked, and nothing else has changed.
pub record Marked (i : ℕ) (bitmap marked : Bytes) : Type 0 where
  pub same_length : length marked ≡ length bitmap
  pub bytes : All IsByte marked
  pub bits : (j : ℕ) → bit_at j marked ≡ ((j == i) || bit_at j bitmap)

Ored-Marked :
    (i : ℕ) (bitmap marked : Bytes)
    → All IsByte bitmap
    → Ored (i / 8) (i % 8) bitmap marked
    → (j : ℕ) → bit_at j marked ≡ ((j == i) || bit_at j bitmap)
Ored-Marked i bitmap marked bytes o j = elim (Bool-cases (j / 8 == i / 8)) [
  | inl same_byte ↦
      let at : j / 8 ≡ i / 8 = ground arith in
      let same_bit : (j % 8 == i % 8) ≡ (j == i) = ground arith in
      ap (λ t. test_bit (j % 8) (get_or marked t 0)) at
      ∙ ap (test_bit (j % 8)) o.here
      ∙ test_bit-or (j % 8) (i % 8) _ (omega arith) (omega arith)
          (get_or-IsByte bitmap (i / 8) bytes)
      ∙ ap (λ t. t || test_bit (j % 8) (get_or bitmap (i / 8) 0)) same_bit
      ∙ ap (λ t. (j == i) || test_bit (j % 8) (get_or bitmap t 0)) (sym at)
  | inr other ↦
      let apart : j / 8 ≢ i / 8 = λ e. ground arith in
      let differs : (j == i) ≡ false = ground arith in
      ap (test_bit (j % 8)) (o.others (j / 8) apart) ∙ sym (ap (λ t. t || bit_at j bitmap) differs)
]

pub or_at-Marked :
    (i : ℕ) (bitmap : Bytes)
    → All IsByte bitmap
    → i / 8 < length bitmap
    → (marked : Bytes) × (or_at (i / 8) (2 ^ (i % 8)) bitmap ≡ some marked) × Marked i bitmap marked
or_at-Marked i bitmap bytes h =
    let (marked, found, o) = or_at-Ored (i / 8) (i % 8) bitmap (omega arith) bytes h in
    (
      marked,
      found,
      record {
        same_length = o.same_length;
        bytes = o.bytes;
        bits = Ored-Marked i bitmap marked bytes o;
      },
    )

pub replicate-IsByte : (n : ℕ) → All IsByte (replicate n 0)
replicate-IsByte zero = tt
replicate-IsByte (suc n) = (omega arith, replicate-IsByte n)

get_or-replicate : (i n : ℕ) → get_or (replicate n 0) i 0 ≡ zero
get_or-replicate i zero = refl
get_or-replicate zero (suc n) = refl
get_or-replicate (suc i) (suc n) = get_or-replicate i n

zero_table : every (λ k. not (test_bit k 0)) 8 ≡ true
unfolding every test_bit
zero_table = refl

test_bit_zero : (k : ℕ) → k < 8 → test_bit k 0 ≡ false
test_bit_zero k h = ground (arith, every-lt _ 8 zero_table k h)

pub bit_at-replicate : (j n : ℕ) → bit_at j (replicate n 0) ≡ false
bit_at-replicate j n =
    ap (test_bit (j % 8)) (get_or-replicate (j / 8) n) ∙ test_bit_zero (j % 8) (omega arith)
