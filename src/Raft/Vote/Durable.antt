-- ===== src/Raft/Vote/Durable.antt =====
-- A vote that `HandleRequestVote` (internal/raft/election.go) grants is on stable storage, if the
-- storage takes it.
use raftra.Common.{arith, string_eq, nat_eq}
use raftra.Proto.{RequestVoteRequest}
use raftra.Raft.Durable.{IsWritable, IsDurable, check_term-IsDurable, save_voted_for-SameTerm}
use raftra.Raft.Node.{RaftNode, role_eq}
use raftra.Raft.Term.{check_term, persist_vote}
use raftra.Raft.Timer.{Env, reset_election_timer}
use raftra.Raft.Vote.{handle_request_vote}
use raftra.Storage.{StorageBackend, IsLawful}

module _ {S : Type 0} ⦃b : StorageBackend S⦄ (law : IsLawful b) (ok : IsWritable b) where
  pub handle_request_vote-IsDurable :
      (env : Env) (req : RequestVoteRequest) (rn : RaftNode S)
      → IsDurable law rn
      → IsDurable law (handle_request_vote env req rn).0
  unfolding handle_request_vote persist_vote reset_election_timer
  handle_request_vote-IsDurable env req rn h = ground (
    arith,
    check_term-IsDurable law ok req.term rn h,
    save_voted_for-SameTerm law ok req.candidate_id (check_term req.term rn).0.storage,
  )
