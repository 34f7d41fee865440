-- ===== src/Raft/Vote/Once.antt =====
-- A node votes once in a term (internal/raft/election.go, `HandleRequestVote`).
use raftra.Common.{◌<◌, ◌≡◌, ◌≢◌, ◌⊎◌, true, false, arith, string_eq, nat_eq, eq_iff}
use raftra.Kvstore.{Codec}
use raftra.Proto.{RequestVoteRequest}
use raftra.Raft.Node.{RaftNode}
use raftra.Raft.Steps.Advance.{Reach-Advances}
use raftra.Raft.Steps.{Reach}
use raftra.Raft.Term.{check_term, persist_vote}
use raftra.Raft.Timer.{Env, reset_election_timer}
use raftra.Raft.Vote.{handle_request_vote}
use raftra.Storage.{StorageBackend}

-- The answer to a real vote request, not a pre-vote, grants the vote.
abbrev pub Grants :
    {S : Type 0} ⦃b : StorageBackend S⦄ → Env → RequestVoteRequest → RaftNode S → Type 0
Grants env req rn =
    (req.pre_vote ≡ false) × ((handle_request_vote env req rn).1.vote_granted ≡ true)

module _ {S : Type 0} ⦃b : StorageBackend S⦄ where
  -- A vote is granted only in the node's new term, for the candidate that the node then records, and
  -- only if the node had, in that term, no vote or a vote for that same candidate.
  pub granted_vote :
      (env : Env) (req : RequestVoteRequest) (rn : RaftNode S)
      → Grants env req rn
      → ((handle_request_vote env req rn).0.persistent.current_term ≡ req.term)
        × ((handle_request_vote env req rn).0.persistent.voted_for ≡ req.candidate_id)
        × ((rn.persistent.current_term < req.term)
            ⊎ (rn.persistent.current_term ≡ req.term)
              × ((rn.persistent.voted_for ≡ "") ⊎ (rn.persistent.voted_for ≡ req.candidate_id)))
  unfolding handle_request_vote check_term reset_election_timer persist_vote
  granted_vote env req rn g =
      ground
        (arith, eq_iff rn.persistent.voted_for "", eq_iff rn.persistent.voted_for req.candidate_id)

module _ {S : Type 0} ⦃b : StorageBackend S⦄ ⦃codec : Codec⦄ where
  -- If a node grants its vote to a candidate with a name, and later, after any run of steps, grants
  -- a vote in the same term, then it grants it to the same candidate.
  pub one_vote_per_term :
      (env env' : Env) (req req' : RequestVoteRequest) (rn rn' : RaftNode S)
      → Grants env req rn
      → Reach (handle_request_vote env req rn).0 rn'
      → Grants env' req' rn'
      → req.term ≡ req'.term
      → req.candidate_id ≢ ""
      → req.candidate_id ≡ req'.candidate_id
  one_vote_per_term env env' req req' rn rn' g r g' e named =
      ground (arith, granted_vote env req rn g, Reach-Advances r, granted_vote env' req' rn' g')
