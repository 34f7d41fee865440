-- ===== src/Raft/Append/Advance.antt =====
-- Serving AppendEntries (internal/raft/election.go) advances the term and the vote.
use raftra.Common.{ℕ, ◌≡◌, arith, string_eq, nat_eq}
use raftra.Kvstore.{Codec}
use raftra.Proto.{AppendEntriesRequest}
use raftra.Raft.Advance.{Advances, check_term-Advances}
use raftra.Raft.Append.{follow, accept, follow_commit, handle_append_entries}
use raftra.Raft.Apply.Frame.{apply_committed-IsApplied}
use raftra.Raft.Node.{RaftNode}
use raftra.Raft.Timer.{Env, reset_election_timer}
use raftra.Storage.{StorageBackend}

module _ {S : Type 0} ⦃b : StorageBackend S⦄ ⦃codec : Codec⦄ where
  pub persistent-follow_commit :
      (commit last : ℕ) (rn : RaftNode S)
      → (follow_commit commit last rn).persistent ≡ rn.persistent
  unfolding follow_commit
  persistent-follow_commit commit last rn = grind (arith, apply_committed-IsApplied)

  follow-Advances :
      (env : Env) (req : AppendEntriesRequest) (rn : RaftNode S)
      → Advances rn.persistent (follow env req rn).persistent
  unfolding follow reset_election_timer
  follow-Advances env req rn = ground (arith, check_term-Advances req.term rn)

  accept-SameVote :
      (req : AppendEntriesRequest) (rn : RaftNode S)
      → ((accept req rn).0.persistent.current_term ≡ rn.persistent.current_term)
        × ((accept req rn).0.persistent.voted_for ≡ rn.persistent.voted_for)
  unfolding accept
  accept-SameVote req rn = grind (arith, persistent-follow_commit)

  pub handle_append_entries-Advances :
      (env : Env) (req : AppendEntriesRequest) (rn : RaftNode S)
      → Advances rn.persistent (handle_append_entries env req rn).0.persistent
  unfolding handle_append_entries
  handle_append_entries-Advances env req rn =
      ground (arith, follow-Advances env req rn, accept-SameVote req (follow env req rn))
