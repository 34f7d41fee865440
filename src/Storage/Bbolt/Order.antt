-- ===== src/Storage/Bbolt/Order.antt =====
-- The order of keys in a bbolt bucket, bytes.Compare, is the order of the indices that they stand for
-- ("Big-endian ensures bbolt stores and sorts log indices in ascending numeric order").
use raftra.Common.{
  Comparable, ℕ, zero, suc, ◌<◌, ◌^◌, ◌≡◌, refl, sym, ◌∙◌, ◌⊎◌, ◌↔◌, inl, inr, Bool, true, false,
  [], ◌∷◌, ◌++◌, arith, ◌==◌, string_eq, nat_eq, ltb, if◌then◌else◌, length,
}
use Prim.Native.Nat.pow
use Prim.Native.Nat.{◌/◌, ◌%◌}
use raftra.Kvstore.{Bytes}
use raftra.Storage.Bbolt.Keys.{
  big_endian, length-big_endian, uint64_to_bytes, bytes_to_uint64-uint64_to_bytes,
}

-- bytes.Compare(a, b) < 0
unfoldable pub bytes_less : Bytes → Bytes → Bool
bytes_less [] [] = false
bytes_less [] (y ∷ ys) = true
bytes_less (x ∷ xs) [] = false
bytes_less (x ∷ xs) (y ∷ ys) = let rest = bytes_less xs ys in if x == y then rest else ltb x y

unfoldable pub bytes_beq : Bytes → Bytes → Bool
bytes_beq [] [] = true
bytes_beq (x ∷ xs) (y ∷ ys) = let rest = bytes_beq xs ys in if x == y then rest else false
bytes_beq _ _ = false

pub bytes_beq_iff : (xs ys : Bytes) → (bytes_beq xs ys ≡ true) ↔ (xs ≡ ys)
unfolding bytes_beq
bytes_beq_iff [] [] = ground arith
bytes_beq_iff [] (y ∷ ys) = ground arith
bytes_beq_iff (x ∷ xs) [] = ground arith
bytes_beq_iff (x ∷ xs) (y ∷ ys) = ground (arith, bytes_beq_iff xs ys)

instance abbrev pub bytes_eq : Comparable Bytes
bytes_eq = record { equal = bytes_beq; equal_iff = bytes_beq_iff }

bytes_less-append :
    (xs ys : Bytes) (a b : ℕ)
    → length xs ≡ length ys
    → bytes_less xs ys ≡ true
    → bytes_less (xs ++ a ∷ []) (ys ++ b ∷ []) ≡ true
unfolding bytes_less
bytes_less-append [] [] a b l h = cc
bytes_less-append [] (y ∷ ys) a b l h = absurd (omega (arith, l))
bytes_less-append (x ∷ xs) [] a b l h = absurd (omega (arith, l))
bytes_less-append (x ∷ xs) (y ∷ ys) a b l h =
    ground (arith, bytes_less-append xs ys a b (omega (arith, l)))

bytes_less-last : (xs : Bytes) (a b : ℕ) → a < b → bytes_less (xs ++ a ∷ []) (xs ++ b ∷ []) ≡ true
unfolding bytes_less
bytes_less-last [] a b h = ground arith
bytes_less-last (x ∷ xs) a b h = ground (arith, bytes_less-last xs a b h)

bytes_less_irrefl : (xs : Bytes) → bytes_less xs xs ≡ false
unfolding bytes_less
bytes_less_irrefl [] = refl
bytes_less_irrefl (x ∷ xs) = ground (arith, bytes_less_irrefl xs)

bytes_less-asymm : (xs ys : Bytes) → bytes_less xs ys ≡ true → bytes_less ys xs ≡ false
unfolding bytes_less
bytes_less-asymm [] [] h = cc
bytes_less-asymm [] (y ∷ ys) h = refl
bytes_less-asymm (x ∷ xs) [] h = cc
bytes_less-asymm (x ∷ xs) (y ∷ ys) h = ground (arith, bytes_less-asymm xs ys)

high_digits : (m n : ℕ) → m < n → (m / 256 < n / 256) ⊎ ((m / 256 ≡ n / 256) × (m % 256 < n % 256))
high_digits m n lt = omega arith

bytes_less-big_endian :
    (k m n : ℕ) → n < 256 ^ k → m < n → bytes_less (big_endian k m) (big_endian k n) ≡ true
unfolding big_endian
bytes_less-big_endian zero m n h lt = absurd (omega arith)
bytes_less-big_endian (suc k) m n h lt =
    let small : n / 256 < 256 ^ k = omega (arith, pow.suc 256 k, h) in
    let same_length : length (big_endian k (m / 256)) ≡ length (big_endian k (n / 256)) =
      length-big_endian k (m / 256) ∙ sym (length-big_endian k (n / 256)) in
    elim (high_digits m n lt) [
      | inl less ↦
          bytes_less-append (big_endian k (m / 256)) (big_endian k (n / 256)) (m % 256) (n % 256)
            same_length (bytes_less-big_endian k (m / 256) (n / 256) small less)
      | inr tie ↦ rw (tie.0) (bytes_less-last (big_endian k (n / 256)) (m % 256) (n % 256) tie.1)
    ]

-- The keys of two indices compare as the indices do.
pub bytes_less-uint64_to_bytes :
    (m n : ℕ)
    → m < 2 ^ 64
    → n < 2 ^ 64
    → bytes_less (uint64_to_bytes m) (uint64_to_bytes n) ≡ ltb m n
unfolding uint64_to_bytes
bytes_less-uint64_to_bytes m n hm hn = grind (
  arith,
  bytes_less-big_endian 8 m n hn,
  bytes_less-big_endian 8 n m hm,
  bytes_less_irrefl (big_endian 8 m),
  bytes_less-asymm (big_endian 8 n) (big_endian 8 m),
)

-- Different indices have different keys.
pub uint64_to_bytes-injective :
    (m n : ℕ) → m < 2 ^ 64 → n < 2 ^ 64 → uint64_to_bytes m ≡ uint64_to_bytes n → m ≡ n
uint64_to_bytes-injective m n hm hn e =
    cc (bytes_to_uint64-uint64_to_bytes m hm, bytes_to_uint64-uint64_to_bytes n hn, e)
