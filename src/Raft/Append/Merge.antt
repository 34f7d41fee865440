-- ===== src/Raft/Append/Merge.antt =====
-- The loop of `HandleAppendEntries` (internal/raft/election.go) over the storage and the log in
-- memory computes `merge_log`, unless a write fails.
use raftra.Common.{
  length-take, take_all, length-le_of_none, lt-length_of_some, ℕ, suc, ◌+◌, ◌≤◌, ◌<◌, ◌^◌, ◌≡◌,
  refl, sym, ap, ◌∙◌, inl, inr, Bool, true, Option, none, some, List, [], ◌∷◌, ◌++◌, arith, ◌==◌,
  string_eq, nat_eq, u64, u64-eq_of_lt, length, take, get_elem?, Bool-cases, Option-cases,
}
use raftra.Proto.{LogEntry}
use raftra.Raft.Append.Spec.{merge_log}
use raftra.Raft.Append.{Logs, append_rest, cut_at, replace_from, merge_entries}
use raftra.Storage.{StorageBackend, IsLawful, AreIndexedFrom, checked}

module _ {S : Type 0} ⦃b : StorageBackend S⦄ (law : IsLawful b) where
  open law use {log}

  -- The log in memory is that on storage.
  abbrev pub Mirrored : Logs S → Type 0
  Mirrored l = l.memory ≡ log l.storage

  append_rest-Mirrored :
      (es : List LogEntry) (l : Logs S)
      → Mirrored l
      → AreIndexedFrom (length (log l.storage)) es
      → Mirrored (append_rest es l).0
  unfolding append_rest
  append_rest-Mirrored es l m ix =
      ground
        (arith, law.append_entries-none l.storage es ix, law.append_entries-failed l.storage es)

  append_rest_lem :
      (es : List LogEntry) (l : Logs S)
      → AreIndexedFrom (length (log l.storage)) es
      → (append_rest es l).1 ≡ true
      → log (append_rest es l).0.storage ≡ log l.storage ++ es
  unfolding append_rest
  append_rest_lem es l ix ok = ground (arith, law.append_entries-none l.storage es ix)

  -- A cut leaves the entries before `n`, on storage and in memory.
  pub cut_at_lem :
      (n : ℕ) (l : Logs S)
      → n < 2 ^ 64
      → Mirrored l
      → (b.truncate_from n l.storage).1 ≡ none
      → let l' = cut_at n (b.truncate_from n l.storage).0 l in
        (log l'.storage ≡ take n (log l.storage)) × Mirrored l'
  unfolding cut_at
  cut_at_lem n l small m e =
      ground (arith, law.truncate_from-none l.storage n small e, take_all n (log l.storage))

  pub AreIndexedFrom-cut :
      (n : ℕ) (es : List LogEntry) (xs ys : List LogEntry)
      → n ≤ length xs
      → ys ≡ take n xs
      → AreIndexedFrom n es
      → AreIndexedFrom (length ys) es
  AreIndexedFrom-cut n es xs ys fits e ix =
      let same : n ≡ length ys = omega (arith, ap length e, length-take n xs) in rw same at ix

  replace_from_lem :
      (n : ℕ) (es : List LogEntry) (l : Logs S)
      → n < 2 ^ 64
      → n ≤ length (log l.storage)
      → Mirrored l
      → AreIndexedFrom n es
      → Mirrored (replace_from n es l).0
        × ((replace_from n es l).1 ≡ true
            → log (replace_from n es l).0.storage ≡ take n (log l.storage) ++ es)
  unfolding replace_from
  replace_from_lem n es l small fits m ix = elim (Option-cases (b.truncate_from n l.storage).1) [
    | inr (e, failed) ↦
        rw (failed, replace_from)
          (m ∙ sym (law.truncate_from-failed l.storage n (λ z. cc)), λ z. cc)
    | inl done ↦
        let l' = cut_at n (b.truncate_from n l.storage).0 l in
        let (cut, m') = cut_at_lem n l small m done in
        let ix' : AreIndexedFrom (length (log l'.storage)) es =
          AreIndexedFrom-cut n es (log l.storage) (log l'.storage) fits cut ix in
        rw (done, replace_from)
          (
            append_rest-Mirrored es l' m' ix',
            λ ok. append_rest_lem es l' ix' ok ∙ ap (λ t. t ++ es) cut,
          )
  ]

  -- The loop from round `i` on, which looks at the index `n`.
  pub merge_entries_lem :
      (prev i n : ℕ) (es : List LogEntry) (l : Logs S)
      → prev + 1 + i ≡ n
      → n + length es < 2 ^ 64
      → n ≤ length (log l.storage)
      → Mirrored l
      → AreIndexedFrom n es
      → Mirrored (merge_entries prev i es l).0
        × ((merge_entries prev i es l).1 ≡ true
            → log (merge_entries prev i es l).0.storage ≡ merge_log n es (log l.storage))
  unfolding merge_entries merge_log
  merge_entries_lem prev i n [] l at_n small fits m ix = (m, λ _. refl)
  merge_entries_lem prev i n (e ∷ es) l at_n small fits m ix =
      go (get_elem? (log l.storage) n) refl λ fits'.
        merge_entries_lem prev (suc i) (suc n) es l (omega arith) (omega arith) fits' m ix.1
    where
      index_n : u64 (prev + 1 + i) ≡ n
      index_n = rw at_n (u64-eq_of_lt n (omega arith))

      Goal : Logs S × Bool → Type 0
      Goal r = Mirrored r.0 × (r.1 ≡ true → log r.0.storage ≡ merge_log n (e ∷ es) (log l.storage))

      found :
          (o : Option LogEntry)
          → get_elem? (log l.storage) n ≡ o
          → checked (b.get_entry (u64 (prev + 1 + i)) l.storage) ≡ o
      found o h = rw index_n (law.get_entry_lem l.storage n (omega arith) ∙ h)

      go :
          (o : Option LogEntry)
          → get_elem? (log l.storage) n ≡ o
          → (suc n ≤ length (log l.storage)
              → Mirrored (merge_entries prev (suc i) es l).0
                × ((merge_entries prev (suc i) es l).1 ≡ true
                    → log (merge_entries prev (suc i) es l).0.storage
                      ≡ merge_log (suc n) es (log l.storage)))
          → Goal (merge_entries prev i (e ∷ es) l)
      go none h ih =
          let at_end : n ≡ length (log l.storage) =
            omega (arith, length-le_of_none (log l.storage) n h) in
          let ix' : AreIndexedFrom (length (log l.storage)) (e ∷ es) = rw at_end at ix in
          rw (found none h, merge_entries)
            (rw (h, merge_log)
              (append_rest-Mirrored (e ∷ es) l m ix', append_rest_lem (e ∷ es) l ix'))
      go (some x) h ih = elim (Bool-cases (x.term == e.term)) [
        | inl t ↦
            rw (found (some x) h, merge_entries)
              (rw (h, merge_log) (rw t (ih (lt-length_of_some (log l.storage) n x h))))
        | inr t ↦
            rw (found (some x) h, merge_entries)
              (rw (h, merge_log)
                (rw t (rw index_n (replace_from_lem n (e ∷ es) l (omega arith) fits m ix))))
      ]
