-- ===== src/Raft/Append/Records.antt =====
-- Serving AppendEntries (internal/raft/election.go) leaves a log without gaps, also where a write fails.
use raftra.Common.{
  refl, length-take, false, take_all, ◌⊎◌, take, lt-length_of_some, length-le_of_none, ℕ, suc, ◌+◌,
  ◌≤◌, ◌<◌, ◌^◌, ◌≡◌, sym, ◌∙◌, inl, inr, List, [], ◌∷◌, arith, ◌==◌, string_eq, nat_eq, u64,
  u64-eq_of_lt, ltb, if◌then◌else◌, length, get_elem?, Bool-cases, Option-cases,
}
use raftra.Kvstore.{Codec}
use raftra.Proto.{LogEntry, AppendEntriesRequest}
use raftra.Raft.Append.Merge.{Mirrored, cut_at_lem, merge_entries_lem}
use raftra.Raft.Append.Spec.{merge_log}
use raftra.Raft.Append.Replicates.{
  HasPrevious, HasPrevious-fits, is_consistent_lem, handle_append_entries-mirrored,
}
use raftra.Raft.Append.{
  Logs, append_rest, cut_at, replace_from, merge_entries, is_consistent, accept, follow, with_logs,
  follow_commit, handle_append_entries,
}
use raftra.Raft.Apply.Frame.{apply_committed-IsApplied}
use raftra.Raft.Node.{RaftNode, role_eq}
use raftra.Raft.Records.{
  Numbered, Numbered-append, Numbered-take, IsRecorded, SameLog, check_term-SameLog,
}
use raftra.Raft.Timer.{Env, reset_election_timer}
use raftra.Storage.{StorageBackend, IsLawful, AreIndexedFrom}

-- The log is cut behind its sentinel, or merged with the new entries.
abbrev pub IsServed : AppendEntriesRequest → List LogEntry → List LogEntry → Type 0
IsServed req old new =
    ((m : ℕ) × (0 < m) × (new ≡ take m old))
    ⊎ HasPrevious req old × (new ≡ merge_log (suc req.prev_log_index) req.entries old)

pub Numbered-merge_log :
    (n : ℕ) (es xs : List LogEntry)
    → 0 < n
    → n ≤ length xs
    → Numbered xs
    → AreIndexedFrom n es
    → Numbered (merge_log n es xs)
unfolding merge_log
Numbered-merge_log n [] xs pos fits h ix = h
Numbered-merge_log n (e ∷ es) xs pos fits h ix = elim (Option-cases (get_elem? xs n)) [
  | inl gone ↦
      let at_end : n ≡ length xs = omega (arith, length-le_of_none xs n gone) in
      rw (gone, merge_log) (Numbered-append xs (e ∷ es) h (rw at_end at ix))
  | inr (x, there) ↦
      let cut : length (take n xs) ≡ n = ground (arith, length-take n xs) in
      rw (there, merge_log)
        (elim (Bool-cases (x.term == e.term)) [
          | inl same ↦ rw same (
              Numbered-merge_log (suc n) es xs (omega arith) (lt-length_of_some xs n x there) h
                ix.1)
          | inr other ↦
              rw other (Numbered-append (take n xs) (e ∷ es) (Numbered-take n xs pos h) (rw cut ix))
        ])
]

module _ {S : Type 0} ⦃b : StorageBackend S⦄ (law : IsLawful b) where
  open law use {log}

  append_rest-failed :
      (es : List LogEntry) (l : Logs S)
      → (append_rest es l).1 ≡ false
      → log (append_rest es l).0.storage ≡ log l.storage
  unfolding append_rest
  append_rest-failed es l h = ground (arith, law.append_entries-failed l.storage es)

  -- A loop that fails leaves the log, or cuts it.
  abbrev IsCut : S → S → Type 0
  IsCut s s' = (log s' ≡ log s) ⊎ ((m : ℕ) × (0 < m) × (log s' ≡ take m (log s)))

  replace_from-failed :
      (n : ℕ) (es : List LogEntry) (l : Logs S)
      → n < 2 ^ 64
      → 0 < n
      → Mirrored law l
      → (replace_from n es l).1 ≡ false
      → IsCut l.storage (replace_from n es l).0.storage
  unfolding replace_from
  replace_from-failed n es l small pos m h = elim (Option-cases (b.truncate_from n l.storage).1) [
    | inr (e, failed) ↦
        rw (failed, replace_from) (inl (law.truncate_from-failed l.storage n (λ z. cc)))
    | inl done ↦
        let l' = cut_at n (b.truncate_from n l.storage).0 l in
        rw (done, replace_from)
          (inr (
            n,
            pos,
            append_rest-failed es l' (rw (done, replace_from) at h)
                ∙ (cut_at_lem law n l small m done).0,
          ))
  ]

  merge_entries-failed :
      (prev i n : ℕ) (es : List LogEntry) (l : Logs S)
      → prev + 1 + i ≡ n
      → n + length es < 2 ^ 64
      → Mirrored law l
      → (merge_entries prev i es l).1 ≡ false
      → IsCut l.storage (merge_entries prev i es l).0.storage
  unfolding merge_entries
  merge_entries-failed prev i n [] l at_n small m h = inl refl
  merge_entries-failed prev i n (e ∷ es) l at_n small m h =
      let index_n : u64 (prev + 1 + i) ≡ n = rw at_n (u64-eq_of_lt n (omega arith)) in
      ground (
        arith,
        index_n,
        append_rest-failed (e ∷ es) l,
        replace_from-failed n (e ∷ es) l (omega arith) (omega arith) m,
        merge_entries-failed prev (suc i) (suc n) es l (omega arith) (omega arith) m,
      )

module _ {S : Type 0} ⦃b : StorageBackend S⦄ ⦃codec : Codec⦄ (law : IsLawful b) where
  open law use {log}

  follow_commit-storage :
      (commit last : ℕ) (rn : RaftNode S) → (follow_commit commit last rn).storage ≡ rn.storage
  unfolding follow_commit
  follow_commit-storage commit last rn = grind (arith, apply_committed-IsApplied)

  accept-storage :
      (req : AppendEntriesRequest) (rn : RaftNode S)
      → (accept req rn).0.storage ≡ (
          if is_consistent req rn.storage
          then (merge_entries req.prev_log_index 0 req.entries
              (record { storage = rn.storage; memory = rn.persistent.log })).0.storage
          else rn.storage)
  unfolding accept with_logs
  accept-storage req rn = grind (arith, follow_commit-storage)

  follow-SameLog :
      (env : Env) (req : AppendEntriesRequest) (rn : RaftNode S)
      → SameLog law rn (follow env req rn)
  unfolding follow reset_election_timer
  follow-SameLog env req rn = ground (arith, check_term-SameLog law req.term rn)

  unchanged :
      (req : AppendEntriesRequest) (xs ys : List LogEntry)
      → 0 < length xs
      → ys ≡ xs
      → IsServed req xs ys
  unchanged req xs ys pos e = inl (length xs, pos, e ∙ sym (take_all (length xs) xs (omega arith)))

  accept-IsServed :
      (req : AppendEntriesRequest) (rn : RaftNode S)
      → IsRecorded law rn
      → req.prev_log_index + 1 + length req.entries < 2 ^ 64
      → AreIndexedFrom (suc req.prev_log_index) req.entries
      → IsServed req (log rn.storage) (log (accept req rn).0.storage)
  accept-IsServed req rn (mirrored, h) small ix = elim (Bool-cases (is_consistent req rn.storage)) [
    | inr gap ↦ rw (accept-storage req rn) (rw gap (unchanged req _ _ h.0 refl))
    | inl fits ↦
        let l : Logs S = record { storage = rn.storage; memory = rn.persistent.log } in
        let previous = is_consistent_lem law req rn.storage (omega arith) fits in
        let merges =
          merge_entries_lem law req.prev_log_index 0 (suc req.prev_log_index) req.entries l
            (omega arith) (omega arith) (HasPrevious-fits req (log rn.storage) h.0 previous)
            mirrored ix in
        let fails =
          merge_entries-failed law req.prev_log_index 0 (suc req.prev_log_index) req.entries l
            (omega arith) (omega arith) mirrored in
        rw (accept-storage req rn) (
          rw fits (elim (Bool-cases (merge_entries req.prev_log_index 0 req.entries l).1) [
            | inl done ↦ inr (previous, merges.1 done)
            | inr failed ↦ elim (fails failed) [
              | inl same ↦ unchanged req _ _ h.0 same
              | inr cut ↦ inl cut
            ]
          ]))
  ]

  -- Whatever the answer, the log is cut, merged with the new entries after the entry that the leader
  -- names, or left alone.
  pub handle_append_entries-IsServed :
      (env : Env) (req : AppendEntriesRequest) (rn : RaftNode S)
      → IsRecorded law rn
      → req.prev_log_index + 1 + length req.entries < 2 ^ 64
      → AreIndexedFrom (suc req.prev_log_index) req.entries
      → IsServed req (log rn.storage) (log (handle_append_entries env req rn).0.storage)
  handle_append_entries-IsServed env req rn (mirrored, h) small ix =
      let (disk, memory) = follow-SameLog env req rn in
      let follows : IsRecorded law (follow env req rn) =
        (memory ∙ mirrored ∙ sym disk, rw disk h) in
      elim (Bool-cases (ltb req.term rn.persistent.current_term)) [
        | inl old ↦ unfold handle_append_entries in rw old (unchanged req _ _ h.0 refl)
        | inr new ↦
            unfold handle_append_entries in
            rw new (rw disk at (accept-IsServed req (follow env req rn) follows small ix))
      ]

  pub handle_append_entries-IsRecorded :
      (env : Env) (req : AppendEntriesRequest) (rn : RaftNode S)
      → IsRecorded law rn
      → req.prev_log_index + 1 + length req.entries < 2 ^ 64
      → AreIndexedFrom (suc req.prev_log_index) req.entries
      → IsRecorded law (handle_append_entries env req rn).0
  handle_append_entries-IsRecorded env req rn (mirrored, h) small ix = (
    handle_append_entries-mirrored law env req rn
        (record { mirrored = mirrored; has_sentinel = h.0 }) small ix,
    (elim (handle_append_entries-IsServed env req rn (mirrored, h) small ix) [
      | inl (m, pos, cut) ↦ rw cut (Numbered-take m (log rn.storage) pos h)
      | inr (previous, merged) ↦ rw merged (
          Numbered-merge_log (suc req.prev_log_index) req.entries (log rn.storage) (omega arith)
            (HasPrevious-fits req (log rn.storage) h.0 previous) h ix)
    ]),
  )
