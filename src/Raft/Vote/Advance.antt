-- ===== src/Raft/Vote/Advance.antt =====
-- Serving RequestVote (internal/raft/election.go) advances the term and the vote.
use raftra.Common.{arith, string_eq, nat_eq, eq_iff}
use raftra.Proto.{RequestVoteRequest}
use raftra.Raft.Advance.{Advances}
use raftra.Raft.Node.{RaftNode}
use raftra.Raft.Term.{check_term}
use raftra.Raft.Timer.{Env, reset_election_timer}
use raftra.Raft.Vote.{handle_request_vote}
use raftra.Storage.{StorageBackend}

module _ {S : Type 0} ⦃b : StorageBackend S⦄ where
  pub handle_request_vote-Advances :
      (env : Env) (req : RequestVoteRequest) (rn : RaftNode S)
      → Advances rn.persistent (handle_request_vote env req rn).0.persistent
  unfolding handle_request_vote check_term reset_election_timer
  handle_request_vote-Advances env req rn =
      ground
        (arith, eq_iff rn.persistent.voted_for "", eq_iff rn.persistent.voted_for req.candidate_id)
