-- ===== src/Raft/Append/Office.antt =====
-- Serving AppendEntries (internal/raft/election.go) gives no office.
use raftra.Common.{ℕ, arith, string_eq, nat_eq}
use raftra.Kvstore.{Codec}
use raftra.Proto.{AppendEntriesRequest}
use raftra.Raft.Append.{follow, accept, follow_commit, handle_append_entries}
use raftra.Raft.Node.{RaftNode, role_eq}
use raftra.Raft.Office.{Stays, Stays-trans}
use raftra.Raft.Term.{check_term}
use raftra.Raft.Timer.{Env, reset_election_timer}
use raftra.Raft.Office.Serves.{apply_committed-Stays}
use raftra.Storage.{StorageBackend}

module _ {S : Type 0} ⦃b : StorageBackend S⦄ ⦃codec : Codec⦄ where
  follow-Stays :
      (env : Env) (req : AppendEntriesRequest) (rn : RaftNode S) → Stays rn (follow env req rn)
  unfolding follow reset_election_timer check_term
  follow-Stays env req rn = ground arith

  follow_commit-Stays :
      (commit last : ℕ) (rn : RaftNode S) → Stays rn (follow_commit commit last rn)
  unfolding follow_commit
  follow_commit-Stays commit last rn = grind (arith, apply_committed-Stays)

  accept-Stays : (req : AppendEntriesRequest) (rn : RaftNode S) → Stays rn (accept req rn).0
  unfolding accept
  accept-Stays req rn = grind (arith, follow_commit-Stays)

  pub handle_append_entries-Stays :
      (env : Env) (req : AppendEntriesRequest) (rn : RaftNode S)
      → Stays rn (handle_append_entries env req rn).0
  unfolding handle_append_entries
  handle_append_entries-Stays env req rn =
      ground (arith, Stays-trans (follow-Stays env req rn) (accept-Stays req (follow env req rn)))
