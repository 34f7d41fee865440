-- ===== src/Raft/Append/Replicates.antt =====
-- `HandleAppendEntries` (internal/raft/election.go) as a whole: what a success says of the log.
use raftra.Common.{
  lt-length_of_some, ℕ, suc, ◌+◌, ◌≤◌, ◌<◌, ◌^◌, ◌≡◌, sym, ◌∙◌, ◌⊎◌, inl, inr, true, some, List,
  arith, string_eq, nat_eq, u64, ltb, length, get_elem?, Bool-cases,
}
use raftra.Kvstore.{Codec}
use raftra.Proto.{LogEntry, AppendEntriesRequest}
use raftra.Raft.Append.Merge.{merge_entries_lem}
use raftra.Raft.Append.Spec.{Covered, merge_log-Covered, merge_log}
use raftra.Raft.Append.{
  Logs, follow, accept, with_logs, is_consistent, merge_entries, follow_commit,
  handle_append_entries,
}
use raftra.Raft.Apply.Frame.{apply_committed-IsApplied}
use raftra.Raft.Node.{RaftNode}
use raftra.Raft.Term.{check_term}
use raftra.Raft.Timer.{Env, reset_election_timer}
use raftra.Storage.{StorageBackend, IsLawful, AreIndexedFrom}

-- The entry that the leader names is there, in its term.
abbrev pub HasPrevious : AppendEntriesRequest → List LogEntry → Type 0
HasPrevious req xs =
    (req.prev_log_index ≡ 0)
    ⊎ ((x : LogEntry) × (get_elem? xs req.prev_log_index ≡ some x) × (x.term ≡ req.prev_log_term))

pub HasPrevious-fits :
    (req : AppendEntriesRequest) (xs : List LogEntry)
    → 0 < length xs
    → HasPrevious req xs
    → suc req.prev_log_index ≤ length xs
HasPrevious-fits req xs h (inl e) = omega arith
HasPrevious-fits req xs h (inr (x, e, t)) = lt-length_of_some xs req.prev_log_index x e

module _ {S : Type 0} ⦃b : StorageBackend S⦄ ⦃codec : Codec⦄ (law : IsLawful b) where
  open law use {log}

  -- The log of a node in memory is that on storage, and it has its sentinel.
  pub record IsMirrored (rn : RaftNode S) : Type 0 where
    pub mirrored : rn.persistent.log ≡ log rn.storage
    pub has_sentinel : 0 < length (log rn.storage)

  check_term-log :
      (t : ℕ) (rn : RaftNode S)
      → (log (check_term t rn).0.storage ≡ log rn.storage)
        × ((check_term t rn).0.persistent.log ≡ rn.persistent.log)
  unfolding check_term
  check_term-log t rn = ground (
    arith,
    law.log-save_term rn.storage t,
    law.log-save_voted_for (b.save_term t rn.storage).0 "",
  )

  follow-log :
      (env : Env) (req : AppendEntriesRequest) (rn : RaftNode S)
      → (log (follow env req rn).storage ≡ log rn.storage)
        × ((follow env req rn).persistent.log ≡ rn.persistent.log)
  unfolding follow reset_election_timer
  follow-log env req rn = ground (arith, check_term-log req.term rn)

  follow_commit-log :
      (commit last : ℕ) (rn : RaftNode S)
      → ((follow_commit commit last rn).storage ≡ rn.storage)
        × ((follow_commit commit last rn).persistent ≡ rn.persistent)
  unfolding follow_commit
  follow_commit-log commit last rn = grind (arith, apply_committed-IsApplied)

  pub is_consistent_lem :
      (req : AppendEntriesRequest) (s : S)
      → req.prev_log_index < 2 ^ 64
      → is_consistent req s ≡ true
      → HasPrevious req (log s)
  unfolding is_consistent
  is_consistent_lem req s small h = ground (arith, law.get_entry_lem s req.prev_log_index small)

  accept_lem :
      (req : AppendEntriesRequest) (rn : RaftNode S)
      → IsMirrored rn
      → req.prev_log_index + 1 + length req.entries < 2 ^ 64
      → AreIndexedFrom (suc req.prev_log_index) req.entries
      → ((accept req rn).0.persistent.log ≡ log (accept req rn).0.storage)
        × ((accept req rn).1.success ≡ true
            → HasPrevious req (log rn.storage)
              × (log (accept req rn).0.storage
                  ≡ merge_log (suc req.prev_log_index) req.entries (log rn.storage)))
  unfolding accept
  accept_lem req rn m small ix = elim (Bool-cases (is_consistent req rn.storage)) [
    | inr no_entry ↦ rw (no_entry, accept) (m.mirrored, λ z. cc)
    | inl there ↦
        let previous = is_consistent_lem req rn.storage (omega arith) there in
        let l : Logs S = record { storage = rn.storage; memory = rn.persistent.log } in
        let merged =
          merge_entries_lem law req.prev_log_index 0 (suc req.prev_log_index) req.entries l
            (omega arith) (omega arith)
            (HasPrevious-fits req (log rn.storage) m.has_sentinel previous) m.mirrored ix in
        let rn' = with_logs (merge_entries req.prev_log_index 0 req.entries l).0 rn in
        rw (there, accept)
          (ground (
            arith,
            merged,
            previous,
            follow_commit-log req.leader_commit (u64 (req.prev_log_index + length req.entries)) rn',
          ))
  ]

  follow-IsMirrored :
      (env : Env) (req : AppendEntriesRequest) (rn : RaftNode S)
      → IsMirrored rn
      → IsMirrored (follow env req rn)
  follow-IsMirrored env req rn m =
      let (disk, memory) = follow-log env req rn in
      record { mirrored = memory ∙ m.mirrored ∙ sym disk; has_sentinel = rw disk m.has_sentinel }

  -- Whatever the answer, and also where a write of the storage fails, the log in memory is the log on
  -- storage afterwards, if it was before and the entries carry the indices at which they belong.
  pub handle_append_entries-mirrored :
      (env : Env) (req : AppendEntriesRequest) (rn : RaftNode S)
      → IsMirrored rn
      → req.prev_log_index + 1 + length req.entries < 2 ^ 64
      → AreIndexedFrom (suc req.prev_log_index) req.entries
      → (handle_append_entries env req rn).0.persistent.log
        ≡ log (handle_append_entries env req rn).0.storage
  handle_append_entries-mirrored env req rn m small ix =
      elim (Bool-cases (ltb req.term rn.persistent.current_term)) [
        | inl old ↦ unfold handle_append_entries in rw old m.mirrored
        | inr new ↦
            unfold handle_append_entries in
            rw new (accept_lem req (follow env req rn) (follow-IsMirrored env req rn m) small ix).0
      ]

  -- A success means that the request is not from an old term, that the follower has the entry that
  -- the leader names as the previous one, and that its log has become `merge_log` of the new entries.
  pub handle_append_entries-merges :
      (env : Env) (req : AppendEntriesRequest) (rn : RaftNode S)
      → IsMirrored rn
      → req.prev_log_index + 1 + length req.entries < 2 ^ 64
      → AreIndexedFrom (suc req.prev_log_index) req.entries
      → (handle_append_entries env req rn).1.success ≡ true
      → (rn.persistent.current_term ≤ req.term)
        × HasPrevious req (log rn.storage)
        × (log (handle_append_entries env req rn).0.storage
            ≡ merge_log (suc req.prev_log_index) req.entries (log rn.storage))
  unfolding handle_append_entries
  handle_append_entries-merges env req rn m small ix ok = ground (
    arith,
    follow-log env req rn,
    accept_lem req (follow env req rn) (follow-IsMirrored env req rn m) small ix,
  )

  pub handle_append_entries-late :
      (env : Env) (req : AppendEntriesRequest) (rn : RaftNode S)
      → IsMirrored rn
      → req.prev_log_index + 1 + length req.entries < 2 ^ 64
      → AreIndexedFrom (suc req.prev_log_index) req.entries
      → Covered (suc req.prev_log_index) req.entries (log rn.storage)
      → (handle_append_entries env req rn).1.success ≡ true
      → log (handle_append_entries env req rn).0.storage ≡ log rn.storage
  handle_append_entries-late env req rn m small ix covered ok =
      (handle_append_entries-merges env req rn m small ix ok).2
      ∙ merge_log-Covered (suc req.prev_log_index) req.entries (log rn.storage) covered
