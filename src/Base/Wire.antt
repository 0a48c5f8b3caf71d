-- ===== src/Base/Wire.antt =====
-- `encoding/binary`: fixed-width unsigned integers in little-endian and big-endian order.
use Prim.Native.Nat.{ℕ, zero, suc, ◌+◌, ◌*◌, ◌/◌, ◌%◌, ◌^◌, ◌<◌}
use mathlib.Core.Path.{◌≡◌, refl, ap}
use mathlib.Core.List.{[], ◌∷◌, ◌++◌}
use native.Mathlib.Nat.{pow-suc}
use native.Mathlib.Omega.{arith}
use my_proxy.Base.Lists.{Bytes, length, length-append}

-- `binary.LittleEndian.PutUint…` over `k` bytes.
unfoldable pub put_le : ℕ → ℕ → Bytes
put_le zero v = []
put_le (suc k) v = (v % 256) ∷ put_le k (v / 256)

-- `binary.BigEndian.PutUint…` over `k` bytes.
unfoldable pub put_be : ℕ → ℕ → Bytes
put_be zero v = []
put_be (suc k) v = put_be k (v / 256) ++ (v % 256) ∷ []

unfoldable pub get_le : Bytes → ℕ
get_le [] = 0
get_le (b ∷ bs) = b + 256 * get_le bs

unfoldable pub get_be_from : ℕ → Bytes → ℕ
get_be_from acc [] = acc
get_be_from acc (b ∷ bs) = get_be_from (acc * 256 + b) bs

abbrev pub get_be : Bytes → ℕ
get_be = get_be_from 0

pub length-put_le : (k v : ℕ) → length (put_le k v) ≡ k
unfolding put_le
length-put_le zero v = refl
length-put_le (suc k) v = ap suc (length-put_le k (v / 256))

pub length-put_be : (k v : ℕ) → length (put_be k v) ≡ k
unfolding put_be
length-put_be zero v = refl
length-put_be (suc k) v =
    omega (arith, length-append (put_be k (v / 256)) ((v % 256) ∷ []), length-put_be k (v / 256))

-- A value that fits the width is read back.
pub get_le-put_le : (k v : ℕ) → v < 256 ^ k → get_le (put_le k v) ≡ v
unfolding get_le put_le
get_le-put_le zero v h = omega arith
get_le-put_le (suc k) v h = omega (arith, get_le-put_le k (v / 256) (omega (arith, pow-suc 256 k)))

get_be_from-append :
    (acc : ℕ) (xs : Bytes) (b : ℕ) → get_be_from acc (xs ++ b ∷ []) ≡ get_be_from acc xs * 256 + b
unfolding get_be_from
get_be_from-append acc [] b = refl
get_be_from-append acc (x ∷ xs) b = get_be_from-append (acc * 256 + x) xs b

pub get_be-put_be : (k v : ℕ) → v < 256 ^ k → get_be (put_be k v) ≡ v
unfolding get_be_from put_be
get_be-put_be zero v h = omega arith
get_be-put_be (suc k) v h = omega (
  arith,
  get_be_from-append 0 (put_be k (v / 256)) (v % 256),
  get_be-put_be k (v / 256) (omega (arith, pow-suc 256 k)),
)
