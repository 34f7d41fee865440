-- ===== src/Cluster/Logs/Slices.antt =====
-- The request that a leader builds (internal/raft/replication.go) carries a slice of its log.
use raftra.Common.{
  length-append, length-drop, drop_all, length-le_of_none, ℕ, zero, suc, ◌+◌, ◌-◌, ◌<◌, ◌^◌, ◌≡◌,
  refl, sym, ap, ◌∙◌, inl, inr, some, List, [], ◌∷◌, ◌++◌, arith, string_eq, nat_eq, ltb, length,
  take, drop, get_elem?, Bool-cases, Option-cases,
}
use raftra.Proto.{LogEntry}
use raftra.Raft.Node.{RaftNode, role_eq}
use raftra.Raft.Records.{Numbered, HasSpace}
use raftra.Raft.Send.{append_request, capped}
use raftra.Raft.Steps.Records.{IsNumbered}
use mathlib.Core.List.{append-nil}
use native.Mathlib.Nat.{zero-add}
use raftra.Storage.{StorageBackend, IsLawful, AreIndexedFrom}
use raftra.Cluster.Logs.{Slices}

take-drop : {A : Type 0} (n : ℕ) (xs : List A) → take n xs ++ drop n xs ≡ xs
take-drop zero xs = refl
take-drop (suc n) [] = refl
take-drop (suc n) (x ∷ xs) = ap (λ t. x ∷ t) (take-drop n xs)

AreIndexedFrom-drop :
    (n m : ℕ) (xs : List LogEntry) → AreIndexedFrom n xs → AreIndexedFrom (m + n) (drop m xs)
AreIndexedFrom-drop n zero xs h = rw zero-add h
AreIndexedFrom-drop n (suc m) [] h = tt
AreIndexedFrom-drop n (suc m) (x ∷ xs) h =
    let same : suc m + n ≡ m + suc n = omega arith in rw same (AreIndexedFrom-drop (suc n) m xs h.1)

AreIndexedFrom-prefix :
    (n : ℕ) (xs ys : List LogEntry) → AreIndexedFrom n (xs ++ ys) → AreIndexedFrom n xs
AreIndexedFrom-prefix n [] ys h = tt
AreIndexedFrom-prefix n (x ∷ xs) ys h = (h.0, AreIndexedFrom-prefix (suc n) xs ys h.1)

capped-prefix : (xs : List LogEntry) → (rest : List LogEntry) × (xs ≡ capped xs ++ rest)
capped-prefix xs = elim (Bool-cases (ltb 256 (length xs))) [
  | inl long ↦ (drop 256 xs, unfold capped in rw long (sym (take-drop 256 xs)))
  | inr short ↦ ([], unfold capped in rw short (sym (append-nil xs)))
]

module _ {S : Type 0} ⦃b : StorageBackend S⦄ (law : IsLawful b) where
  entries-append_request :
      (rn : RaftNode S) (n : ℕ)
      → n + 1 < 2 ^ 64
      → ((append_request rn (suc n)).prev_log_index ≡ n)
        × ((append_request rn (suc n)).entries ≡ capped (drop (suc n) (law.log rn.storage)))
        × ((x : LogEntry)
            → get_elem? (law.log rn.storage) n ≡ some x
            → x.term ≡ (append_request rn (suc n)).prev_log_term)
  unfolding append_request
  entries-append_request rn n small =
      let same : suc n - 1 ≡ n = omega arith in
      (
        same,
        ap capped (law.get_entries_from_lem rn.storage (suc n) (omega (arith, small))),
        λ x there.
            rw same (rw (law.get_entry_lem rn.storage n (omega (arith, small)) ∙ there) refl),
      )

  pub append_request-Slices :
      (rn : RaftNode S) (n : ℕ)
      → Numbered (law.log rn.storage)
      → HasSpace law rn
      → n + 1 < 2 ^ 64
      → IsNumbered (append_request rn (suc n))
        × Slices (law.log rn.storage) (append_request rn (suc n))
  append_request-Slices rn n h space small =
      let log = law.log rn.storage in
      let (prev, entries, term) = entries-append_request rn n small in
      let (rest, slice) = capped-prefix (drop (suc n) log) in
      let tail = AreIndexedFrom-drop 0 (suc n) log h.1 in
      let shift : suc n + 0 ≡ suc n = omega arith in
      let numbered : IsNumbered (append_request rn (suc n)) = (
        rw (prev, entries)
            (omega (
              arith,
              ap length slice,
              length-append (capped (drop (suc n) log)) rest,
              length-drop (suc n) log,
              space,
              small,
            )),
        rw (prev, entries)
            (AreIndexedFrom-prefix (suc n) (capped (drop (suc n) log)) rest
              (rw shift at (rw slice at tail))),
      ) in
      (
        numbered,
        elim (Option-cases (get_elem? log n)) [
          | inl gone ↦
              let none_left = drop_all (suc n) log (omega (arith, length-le_of_none log n gone)) in
              inl (entries ∙ ap capped none_left ∙ unfold capped in refl)
          | inr (x, there) ↦ inr (record {
            previous = x;
            rest = rest;
            at_previous = rw prev there;
            previous_term = term x there;
            slice = rw (prev, entries) slice;
          })
        ],
      )
