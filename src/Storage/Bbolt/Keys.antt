-- ===== src/Storage/Bbolt/Keys.antt =====
-- The keys of the log bucket (uint64ToBytes and bytesToUint64 of internal/storage/bbolt_store.go).
use raftra.Common.{
  ◌%◌, ◌*◌, take_all, length-append, ◌/◌, ℕ, zero, suc, ◌+◌, ◌<◌, ◌^◌, ◌≡◌, refl, [], ◌∷◌, ◌++◌,
  arith, string_eq, nat_eq, ltb, if◌then◌else◌, length, take,
}
use Prim.Native.Nat.pow
use raftra.Kvstore.{Bytes}

-- The last `k` bytes of a number, the highest first.
unfoldable pub big_endian : ℕ → ℕ → Bytes
big_endian zero n = []
big_endian (suc k) n = big_endian k (n / 256) ++ n % 256 ∷ []

unfoldable pub from_big_endian : ℕ → Bytes → ℕ
from_big_endian acc [] = acc
from_big_endian acc (x ∷ xs) = from_big_endian (acc * 256 + x) xs

unfoldable pub uint64_to_bytes : ℕ → Bytes
uint64_to_bytes n = big_endian 8 n

-- binary.BigEndian.Uint64 reads the first eight bytes.
unfoldable pub bytes_to_uint64 : Bytes → ℕ
bytes_to_uint64 b = if ltb (length b) 8 then 0 else from_big_endian 0 (take 8 b)

from_big_endian-snoc :
    (acc : ℕ) (xs : Bytes) (x : ℕ)
    → from_big_endian acc (xs ++ x ∷ []) ≡ from_big_endian acc xs * 256 + x
unfolding from_big_endian
from_big_endian-snoc acc [] x = refl
from_big_endian-snoc acc (y ∷ xs) x = from_big_endian-snoc (acc * 256 + y) xs x

from_big_endian-big_endian : (k n : ℕ) → n < 256 ^ k → from_big_endian 0 (big_endian k n) ≡ n
unfolding big_endian from_big_endian
from_big_endian-big_endian zero n h = omega arith
from_big_endian-big_endian (suc k) n h =
    let small : n / 256 < 256 ^ k = omega (arith, pow.suc 256 k) in
    omega (
      arith,
      from_big_endian-snoc 0 (big_endian k (n / 256)) (n % 256),
      from_big_endian-big_endian k (n / 256) small,
    )

pub length-big_endian : (k n : ℕ) → length (big_endian k n) ≡ k
unfolding big_endian
length-big_endian zero n = refl
length-big_endian (suc k) n =
    omega
      (arith, length-append (big_endian k (n / 256)) (n % 256 ∷ []), length-big_endian k (n / 256))

-- A number is read back from its key.
pub bytes_to_uint64-uint64_to_bytes : (n : ℕ) → n < 2 ^ 64 → bytes_to_uint64 (uint64_to_bytes n) ≡ n
unfolding bytes_to_uint64 uint64_to_bytes
bytes_to_uint64-uint64_to_bytes n h =
    rw (length-big_endian 8 n, take_all 8 (big_endian 8 n) (omega (arith, length-big_endian 8 n)))
      (from_big_endian-big_endian 8 n h)
