-- ===== src/Raft/Append/Proceeds.antt =====
-- Serving AppendEntries (internal/raft/election.go) never moves the commit index back.
use raftra.Common.{ℕ, ◌<◌, inl, inr, arith, string_eq, nat_eq, ltb, if◌then◌else◌, Bool-cases}
use raftra.Kvstore.{Codec}
use raftra.Proto.{AppendEntriesRequest}
use raftra.Raft.Append.{
  follow, accept, with_logs, Logs, merge_entries, is_consistent, follow_commit,
  handle_append_entries,
}
use raftra.Raft.Apply.Proceeds.{apply_committed-Proceeds}
use raftra.Raft.Node.{RaftNode, role_eq}
use raftra.Raft.Proceeds.{Proceeds, Proceeds-refl, Proceeds-trans}
use raftra.Raft.Term.{check_term}
use raftra.Raft.Timer.{Env, reset_election_timer}
use raftra.Storage.{StorageBackend}

module _ {S : Type 0} ⦃b : StorageBackend S⦄ ⦃codec : Codec⦄ where
  follow-Proceeds :
      (env : Env) (req : AppendEntriesRequest) (rn : RaftNode S) → Proceeds rn (follow env req rn)
  unfolding follow check_term reset_election_timer
  follow-Proceeds env req rn = ground arith

  set_commit-Proceeds :
      (n : ℕ) (rn : RaftNode S)
      → rn.volatile.commit_index < n
      → Proceeds rn (record rn { volatile = record rn.volatile { commit_index = n } })
  set_commit-Proceeds n rn lt = ground arith

  follow_commit-Proceeds :
      (commit last : ℕ) (rn : RaftNode S) → Proceeds rn (follow_commit commit last rn)
  unfolding follow_commit
  follow_commit-Proceeds commit last rn =
      let n = if ltb last commit then last else commit in
      elim (Bool-cases (ltb rn.volatile.commit_index commit)) [
        | inr old ↦ rw old (Proceeds-refl rn)
        | inl new ↦ rw new (elim (Bool-cases (ltb rn.volatile.commit_index n)) [
          | inr same ↦ rw same (Proceeds-refl rn)
          | inl up ↦ rw up (
              Proceeds-trans (set_commit-Proceeds n rn (ground (arith, up)))
                (apply_committed-Proceeds _))
        ])
      ]

  with_logs-Proceeds : (l : Logs S) (rn : RaftNode S) → Proceeds rn (with_logs l rn)
  unfolding with_logs
  with_logs-Proceeds l rn = ground arith

  accept-Proceeds : (req : AppendEntriesRequest) (rn : RaftNode S) → Proceeds rn (accept req rn).0
  unfolding accept
  accept-Proceeds req rn =
      let merged =
        merge_entries req.prev_log_index 0 req.entries
          (record { storage = rn.storage; memory = rn.persistent.log }) in
      elim (Bool-cases (is_consistent req rn.storage)) [
        | inr gap ↦ rw gap (Proceeds-refl rn)
        | inl fits ↦ rw fits (elim (Bool-cases merged.1) [
          | inr failed ↦ rw failed (with_logs-Proceeds merged.0 rn)
          | inl done ↦
              rw done
                (Proceeds-trans (with_logs-Proceeds merged.0 rn) (follow_commit-Proceeds _ _ _))
        ])
      ]

  pub handle_append_entries-Proceeds :
      (env : Env) (req : AppendEntriesRequest) (rn : RaftNode S)
      → Proceeds rn (handle_append_entries env req rn).0
  unfolding handle_append_entries
  handle_append_entries-Proceeds env req rn =
      elim (Bool-cases (ltb req.term rn.persistent.current_term)) [
        | inl old ↦ rw old (Proceeds-refl rn)
        | inr new ↦ rw new (Proceeds-trans (follow-Proceeds env req rn) (accept-Proceeds req _))
      ]
