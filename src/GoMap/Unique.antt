-- ===== src/GoMap/Unique.antt =====
-- A map holds each key once, so that the length of the list is Go's `len(m)`.
use raftra.Common.{◌+◌, ◌≡◌, refl, none, some, [], ◌∷◌, arith, Comparable, length}
use raftra.GoMap.{GoMap, lookup, insert, delete, lookup-insert, lookup-delete}

module _ {ℓ} {K V : Type ℓ} ⦃e : Comparable K⦄ where
  abbrev pub IsUnique : GoMap K V → Type ℓ
  IsUnique [] = Unit
  IsUnique ((k, v) ∷ m) = (lookup m k ≡ none) × IsUnique m

  pub insert-IsUnique : (m : GoMap K V) (k : K) (v : V) → IsUnique m → IsUnique (insert m k v)
  unfolding lookup insert
  insert-IsUnique [] k v h = (refl, tt)
  insert-IsUnique ((j, w) ∷ m) k v (fresh, u) =
      ground
        (arith, e.equal_iff j k, e.equal_iff k j, lookup-insert m k v j, insert-IsUnique m k v u)

  pub delete-IsUnique : (m : GoMap K V) (k : K) → IsUnique m → IsUnique (delete m k)
  unfolding lookup delete
  delete-IsUnique [] k h = tt
  delete-IsUnique ((j, w) ∷ m) k (fresh, u) =
      ground (arith, e.equal_iff j k, e.equal_iff k j, lookup-delete m k j, delete-IsUnique m k u)

  delete-missing : (m : GoMap K V) (k : K) → lookup m k ≡ none → length (delete m k) ≡ length m
  unfolding lookup delete
  delete-missing [] k h = refl
  delete-missing ((j, w) ∷ m) k h = ground (arith, delete-missing m k)

  -- Deleting a key takes one entry away exactly where the key was present.
  pub length-delete :
      (m : GoMap K V) (k : K)
      → IsUnique m
      → length m
        ≡ (elim (lookup m k) [ none ↦ length (delete m k) | some _ ↦ length (delete m k) + 1 ])
  unfolding lookup delete
  length-delete [] k h = refl
  length-delete ((j, w) ∷ m) k (fresh, u) =
      ground (arith, e.equal_iff j k, length-delete m k u, delete-missing m j, delete-missing m k)
