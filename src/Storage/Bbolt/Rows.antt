-- ===== src/Storage/Bbolt/Rows.antt =====
-- The pairs of the log bucket as rows for the entries of a log (internal/storage/bbolt_store.go).
pub mod Deletion
use raftra.Common.{
  length-drop, lt→ltb, ℕ, zero, suc, ◌+◌, ◌≤◌, ◌<◌, ◌^◌, ◌≡◌, ◌≢◌, refl, sym, ap, ◌∙◌, ◌⊎◌, false,
  Option, none, some, List, [], ◌∷◌, ◌++◌, arith, string_eq, nat_eq, ltb, length, take, drop,
  get_elem?, last_or,
}
use mathlib.Core.Path.{subst}
use raftra.GoMap
use raftra.Kvstore.{Bytes}
use raftra.Storage.Bbolt.{Marshal, unmarshal_all}
use raftra.Storage.Bbolt.Pairs.{Pairs, put_sorted, put_sorted-later, seek, delete_keys}
use raftra.Storage.Bbolt.Keys.{uint64_to_bytes}
use raftra.Storage.Bbolt.Order.{
  bytes_less, bytes_eq, bytes_less-uint64_to_bytes, uint64_to_bytes-injective,
}
use raftra.Proto.{LogEntry}

-- A key is known by the index that it stands for.
key-less :
    (m n : ℕ) (key : Bytes)
    → key ≡ uint64_to_bytes m
    → m < 2 ^ 64
    → n < 2 ^ 64
    → bytes_less key (uint64_to_bytes n) ≡ ltb m n
key-less m n key e hm hn =
    ap (λ k. bytes_less k (uint64_to_bytes n)) e ∙ bytes_less-uint64_to_bytes m n hm hn

key-ne :
    (m n : ℕ) (key : Bytes) → key ≡ uint64_to_bytes m → m < n → n < 2 ^ 64 → key ≢ uint64_to_bytes n
key-ne m n key e lt hn c =
    let same = uint64_to_bytes-injective m n (omega arith) hn (sym e ∙ c) in omega (arith, same)

later : (n k : ℕ) → ltb (n + suc k) n ≡ false
later n k = ground arith

lt_irrefl : (n : ℕ) → ltb n (n + 0) ≡ false
lt_irrefl n = ground arith

module _ ⦃proto : Marshal⦄ where
  -- The pairs hold the entries, from the index `n` on.
  abbrev pub AreRows : ℕ → List LogEntry → Pairs → Type 0
  AreRows n [] [] = Unit
  AreRows n [] (p ∷ ps) = ⊥
  AreRows n (e ∷ es) [] = ⊥
  AreRows n (e ∷ es) ((k, v) ∷ ps) =
      (k ≡ uint64_to_bytes n) × (proto.unmarshal v ≡ some e) × AreRows (suc n) es ps

  -- proto.Unmarshal of a value that is there.
  abbrev pub read : Option Bytes → Option LogEntry
  read none = none
  read (some v) = proto.unmarshal v

  -- A key in a bucket whose rows start at `n`, by its distance to `n`.
  pub read-lookup :
      (n : ℕ) (es : List LogEntry) (ps : Pairs) (k : ℕ)
      → AreRows n es ps
      → n + k < 2 ^ 64
      → read (GoMap.lookup ps (uint64_to_bytes (n + k))) ≡ get_elem? es k
  unfolding GoMap.lookup
  read-lookup n [] [] k h hi = refl
  read-lookup n [] (p ∷ ps) k h hi = absurd h
  read-lookup n (e ∷ es) [] k h hi = absurd h
  read-lookup n (e ∷ es) ((j, v) ∷ ps) zero h hi =
      let same : n ≡ n + 0 = omega arith in
      ap read (GoMap.lookup-here ps j (uint64_to_bytes (n + 0)) v (h.0 ∙ ap uint64_to_bytes same))
      ∙ h.1
  read-lookup n (e ∷ es) ((j, v) ∷ ps) (suc k) h hi =
      let shift : n + suc k ≡ suc n + k = omega arith in
      ap read (
        GoMap.lookup-there ps j (uint64_to_bytes (n + suc k)) v
          (key-ne n (n + suc k) j h.0 (omega arith) hi))
      ∙ ap (λ i. read (GoMap.lookup ps (uint64_to_bytes i))) shift
      ∙ read-lookup (suc n) es ps k h.2 (omega arith)

  pub seek_lem :
      (n : ℕ) (es : List LogEntry) (ps : Pairs) (k : ℕ)
      → AreRows n es ps
      → n + k < 2 ^ 64
      → n + length es ≤ 2 ^ 64
      → seek (uint64_to_bytes (n + k)) ps ≡ drop k ps
  unfolding seek
  seek_lem n [] [] zero h hi small = refl
  seek_lem n [] [] (suc k) h hi small = refl
  seek_lem n [] (p ∷ ps) k h hi small = absurd h
  seek_lem n (e ∷ es) [] k h hi small = absurd h
  seek_lem n (e ∷ es) ((j, v) ∷ ps) zero h hi small =
      rw (key-less n (n + 0) j h.0 (omega arith) hi, lt_irrefl n)
  seek_lem n (e ∷ es) ((j, v) ∷ ps) (suc k) h hi small =
      let shift : n + suc k ≡ suc n + k = omega arith in
      rw (key-less n (n + suc k) j h.0 (omega arith) hi, lt→ltb n (n + suc k) (omega arith))
        (ap (λ i. seek (uint64_to_bytes i) ps) shift
          ∙ seek_lem (suc n) es ps k h.2 (omega arith) (omega (arith, small)))

  pub AreRows-drop :
      (n : ℕ) (es : List LogEntry) (ps : Pairs) (k : ℕ)
      → AreRows n es ps
      → AreRows (n + k) (drop k es) (drop k ps)
  AreRows-drop n es ps zero h =
      let same : n ≡ n + 0 = omega arith in subst (λ m. AreRows m es ps) same h
  AreRows-drop n [] [] (suc k) h = tt
  AreRows-drop n [] (p ∷ ps) (suc k) h = absurd h
  AreRows-drop n (e ∷ es) [] (suc k) h = absurd h
  AreRows-drop n (e ∷ es) ((j, v) ∷ ps) (suc k) h =
      let shift : suc n + k ≡ n + suc k = omega arith in
      subst (λ m. AreRows m (drop k es) (drop k ps)) shift (AreRows-drop (suc n) es ps k h.2)

  pub AreRows-take :
      (n : ℕ) (es : List LogEntry) (ps : Pairs) (k : ℕ)
      → AreRows n es ps
      → AreRows n (take k es) (take k ps)
  AreRows-take n es ps zero h = tt
  AreRows-take n [] [] (suc k) h = tt
  AreRows-take n [] (p ∷ ps) (suc k) h = absurd h
  AreRows-take n (e ∷ es) [] (suc k) h = absurd h
  AreRows-take n (e ∷ es) ((j, v) ∷ ps) (suc k) h = (h.0, h.1, AreRows-take (suc n) es ps k h.2)

  -- A put at the next index goes to the end.
  pub put_sorted-end :
      (n : ℕ) (es : List LogEntry) (ps : Pairs) (v : Bytes)
      → AreRows n es ps
      → n + length es < 2 ^ 64
      → put_sorted (uint64_to_bytes (n + length es)) v ps
        ≡ ps ++ (uint64_to_bytes (n + length es), v) ∷ []
  unfolding put_sorted
  put_sorted-end n [] [] v h small = refl
  put_sorted-end n [] (p ∷ ps) v h small = absurd h
  put_sorted-end n (e ∷ es) [] v h small = absurd h
  put_sorted-end n (e ∷ es) ((j, w) ∷ ps) v h small =
      let shift : n + suc (length es) ≡ suc n + length es = omega arith in
      let less : bytes_less (uint64_to_bytes (n + suc (length es))) j ≡ false =
        ap (bytes_less (uint64_to_bytes (n + suc (length es)))) h.0
        ∙ key-less _ n _ refl small (omega (arith, small))
        ∙ later n (length es) in
      let ne : uint64_to_bytes (n + suc (length es)) ≢ j =
        λ c. key-ne n (n + suc (length es)) j h.0 (omega arith) small (sym c) in
      put_sorted-later _ v j w ps less ne
      ∙ ap (λ l. (j, w) ∷ l)
          (ap (λ i. put_sorted (uint64_to_bytes i) v ps) shift
            ∙ put_sorted-end (suc n) es ps v h.2 (omega (arith, small))
            ∙ ap (λ i. ps ++ (uint64_to_bytes i, v) ∷ []) (sym shift))

  pub AreRows-append :
      (n : ℕ) (es : List LogEntry) (ps : Pairs) (e : LogEntry) (v : Bytes)
      → AreRows n es ps
      → proto.unmarshal v ≡ some e
      → AreRows n (es ++ e ∷ []) (ps ++ (uint64_to_bytes (n + length es), v) ∷ [])
  AreRows-append n [] [] e v h u =
      let same : n + 0 ≡ n = omega arith in (ap uint64_to_bytes same, u, tt)
  AreRows-append n [] (p ∷ ps) e v h u = absurd h
  AreRows-append n (x ∷ es) [] e v h u = absurd h
  AreRows-append n (x ∷ es) ((j, w) ∷ ps) e v h u =
      let shift : suc n + length es ≡ n + suc (length es) = omega arith in
      (
        h.0,
        h.1,
        subst (λ m. AreRows (suc n) (es ++ e ∷ []) (ps ++ (uint64_to_bytes m, v) ∷ [])) shift
            (AreRows-append (suc n) es ps e v h.2 u),
      )

  -- The loops over a cursor read the entries.
  pub unmarshal_all-rows :
      (n : ℕ) (es : List LogEntry) (ps : Pairs) → AreRows n es ps → unmarshal_all ps ≡ (es, none)
  unfolding unmarshal_all
  unmarshal_all-rows n [] [] h = refl
  unmarshal_all-rows n [] (p ∷ ps) h = absurd h
  unmarshal_all-rows n (e ∷ es) [] h = absurd h
  unmarshal_all-rows n (e ∷ es) ((j, v) ∷ ps) h =
      rw (h.1, unmarshal_all) (ap (λ r. (e ∷ r.0, r.1)) (unmarshal_all-rows (suc n) es ps h.2))

  -- The last pair holds the last entry.
  pub last-rows :
      (n : ℕ) (e : LogEntry) (es : List LogEntry) (p : Bytes × Bytes) (ps : Pairs)
      → AreRows n (e ∷ es) (p ∷ ps)
      → ((last_or p ps).0 ≡ uint64_to_bytes (n + length es))
        × (proto.unmarshal (last_or p ps).1 ≡ some (last_or e es))
  last-rows n e [] p [] h =
      let same : n ≡ n + 0 = omega arith in (h.0 ∙ ap uint64_to_bytes same, h.1)
  last-rows n e [] p (q ∷ ps) h = absurd h.2
  last-rows n e (x ∷ es) p [] h = absurd h.2
  last-rows n e (x ∷ es) p (q ∷ ps) h =
      let shift : suc n + length es ≡ n + suc (length es) = omega arith in
      let rest = last-rows (suc n) x es q ps h.2 in (rest.0 ∙ ap uint64_to_bytes shift, rest.1)
