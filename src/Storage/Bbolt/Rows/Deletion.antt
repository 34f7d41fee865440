-- ===== src/Storage/Bbolt/Rows/Deletion.antt =====
-- The second loop of TruncateFrom (internal/storage/bbolt_store.go) on the rows of a log.
use raftra.Common.{
  ℕ, zero, suc, ◌+◌, ◌≤◌, ◌<◌, ◌^◌, ◌≡◌, refl, sym, ap, ◌∙◌, ◌⊎◌, List, [], ◌∷◌, arith, string_eq,
  nat_eq, length, length-drop, take, drop,
}
use raftra.GoMap
use raftra.Kvstore.{Bytes}
use raftra.Proto.{LogEntry}
use raftra.Storage.Bbolt.{Marshal}
use raftra.Storage.Bbolt.Keys.{uint64_to_bytes}
use raftra.Storage.Bbolt.Order.{bytes_eq}
use raftra.Storage.Bbolt.Pairs.{Pairs, delete_keys}
use raftra.Storage.Bbolt.Rows.{AreRows, AreRows-drop, key-ne}

module _ ⦃proto : Marshal⦄ where
  delete-fresh :
      (m n : ℕ) (es : List LogEntry) (ps : Pairs) (key : Bytes)
      → key ≡ uint64_to_bytes m
      → AreRows n es ps
      → m < n
      → n + length es ≤ 2 ^ 64
      → GoMap.delete ps key ≡ ps
  unfolding GoMap.delete
  delete-fresh m n [] [] key e h lt small = refl
  delete-fresh m n [] (p ∷ ps) key e h lt small = absurd h
  delete-fresh m n (x ∷ es) [] key e h lt small = absurd h
  delete-fresh m n (x ∷ es) ((j, v) ∷ ps) key e h lt small =
      GoMap.delete-there ps j key v (λ c. key-ne m n key e lt (omega (arith, small)) (sym c ∙ h.0))
      ∙ ap (λ l. (j, v) ∷ l)
          (delete-fresh m (suc n) es ps key e h.2 (omega arith) (omega (arith, small)))

  delete_keys-all :
      (n : ℕ) (es : List LogEntry) (ps : Pairs)
      → AreRows n es ps
      → n + length es ≤ 2 ^ 64
      → delete_keys ps ps ≡ []
  unfolding delete_keys
  delete_keys-all n [] [] h small = refl
  delete_keys-all n [] (p ∷ ps) h small = absurd h
  delete_keys-all n (e ∷ es) [] h small = absurd h
  delete_keys-all n (e ∷ es) ((j, v) ∷ ps) h small =
      ap (λ l. delete_keys l ps)
        (GoMap.delete-here ps j j v refl
          ∙ delete-fresh n (suc n) es ps j h.0 h.2 (omega arith) (omega (arith, small)))
      ∙ delete_keys-all (suc n) es ps h.2 (omega (arith, small))

  delete_keys-cons :
      (m n : ℕ) (es : List LogEntry) (ps ks : Pairs) (key v : Bytes)
      → key ≡ uint64_to_bytes m
      → AreRows n es ks
      → m < n
      → (length es ≡ 0) ⊎ (n + length es ≤ 2 ^ 64)
      → delete_keys ((key, v) ∷ ps) ks ≡ (key, v) ∷ delete_keys ps ks
  unfolding delete_keys
  delete_keys-cons m n [] ps [] key v e h lt small = refl
  delete_keys-cons m n [] ps (k ∷ ks) key v e h lt small = absurd h
  delete_keys-cons m n (x ∷ es) ps [] key v e h lt small = absurd h
  delete_keys-cons m n (x ∷ es) ps ((j, w) ∷ ks) key v e h lt small =
      ap (λ l. delete_keys l ks)
        (GoMap.delete-there ps key j v (λ c. key-ne m n key e lt (omega (arith, small)) (c ∙ h.0)))
      ∙ delete_keys-cons m (suc n) es (GoMap.delete ps j) ks key v e h.2 (omega arith)
          (omega (arith, small))

  -- Deleting the keys from some point on leaves the rows before it.
  pub delete_keys-drop :
      (n : ℕ) (es : List LogEntry) (ps : Pairs) (k : ℕ)
      → AreRows n es ps
      → n + length es ≤ 2 ^ 64
      → delete_keys ps (drop k ps) ≡ take k ps
  unfolding delete_keys
  delete_keys-drop n es ps zero h small = delete_keys-all n es ps h small
  delete_keys-drop n [] [] (suc k) h small = refl
  delete_keys-drop n [] (p ∷ ps) (suc k) h small = absurd h
  delete_keys-drop n (e ∷ es) [] (suc k) h small = absurd h
  delete_keys-drop n (e ∷ es) ((j, v) ∷ ps) (suc k) h small =
      let bound : (length (drop k es) ≡ 0) ⊎ (suc n + k + length (drop k es) ≤ 2 ^ 64) =
        omega (arith, length-drop k es, small) in
      delete_keys-cons n (suc n + k) (drop k es) ps (drop k ps) j v h.0
        (AreRows-drop (suc n) es ps k h.2) (omega arith) bound
      ∙ ap (λ l. (j, v) ∷ l) (delete_keys-drop (suc n) es ps k h.2 (omega (arith, small)))
