-- ===== src/GoMap.antt =====
-- A Go map, as an association list. The order in which Go visits a map is not fixed; no definition
-- of the development depends on the order of the list.
pub mod Unique
use raftra.Common.{
  ◌≢◌, ◌+◌, ◌≡◌, refl, Option, none, some, List, [], ◌∷◌, arith, Comparable, ◌==◌, if◌then◌else◌,
  length,
}

abbrev pub GoMap {ℓ} : Type ℓ → Type ℓ → Type ℓ
GoMap K V = List (K × V)

module _ {ℓ} {K V : Type ℓ} ⦃e : Comparable K⦄ where
  -- v, ok := m[k]
  unfoldable pub lookup : GoMap K V → K → Option V
  lookup [] k = none
  lookup ((j, v) ∷ m) k = if j == k then some v else lookup m k

  -- m[k] = v
  unfoldable pub insert : GoMap K V → K → V → GoMap K V
  insert [] k v = (k, v) ∷ []
  insert ((j, w) ∷ m) k v = if j == k then (k, v) ∷ m else (j, w) ∷ insert m k v

  -- delete(m, k)
  unfoldable pub delete : GoMap K V → K → GoMap K V
  delete [] k = []
  delete ((j, w) ∷ m) k = let rest = delete m k in if j == k then rest else (j, w) ∷ rest

  pub lookup-insert :
      (m : GoMap K V) (k : K) (v : V) (j : K)
      → lookup (insert m k v) j ≡ (if k == j then some v else lookup m j)
  unfolding lookup insert
  lookup-insert [] k v j = refl
  lookup-insert ((i, w) ∷ m) k v j =
      ground (arith, e.equal_iff k j, e.equal_iff i k, e.equal_iff i j, lookup-insert m k v j)

  pub lookup-delete :
      (m : GoMap K V) (k j : K) → lookup (delete m k) j ≡ (if k == j then none else lookup m j)
  unfolding lookup delete
  lookup-delete [] k j = ground arith
  lookup-delete ((i, w) ∷ m) k j =
      ground (arith, e.equal_iff k j, e.equal_iff i k, e.equal_iff i j, lookup-delete m k j)

  -- Writing a key adds an entry exactly where the key was missing.
  pub length-insert :
      (m : GoMap K V) (k : K) (v : V)
      → length (insert m k v) ≡ (elim (lookup m k) [ none ↦ length m + 1 | some _ ↦ length m ])
  unfolding lookup insert
  length-insert [] k v = omega arith
  length-insert ((i, w) ∷ m) k v = ground (arith, length-insert m k v)

  -- The first pair of a map is the one that is looked for, or it is not.
  pub lookup-here : (m : GoMap K V) (j k : K) (v : V) → j ≡ k → lookup ((j, v) ∷ m) k ≡ some v
  unfolding lookup
  lookup-here m j k v h = rw ((e.equal_iff j k).1 h)

  pub lookup-there : (m : GoMap K V) (j k : K) (v : V) → j ≢ k → lookup ((j, v) ∷ m) k ≡ lookup m k
  unfolding lookup
  lookup-there m j k v h = ground (arith, e.equal_iff j k)

  pub delete-here : (m : GoMap K V) (j k : K) (v : V) → j ≡ k → delete ((j, v) ∷ m) k ≡ delete m k
  unfolding delete
  delete-here m j k v h = rw ((e.equal_iff j k).1 h)

  pub delete-there :
      (m : GoMap K V) (j k : K) (v : V) → j ≢ k → delete ((j, v) ∷ m) k ≡ (j, v) ∷ delete m k
  unfolding delete
  delete-there m j k v h = ground (arith, e.equal_iff j k)
