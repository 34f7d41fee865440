-- ===== src/Raft/Vote.antt =====
-- `HandleRequestVote`, `handlePreVoteLocked` and `candidateLogUpToDateLocked` of
-- internal/raft/election.go.
pub mod Advance
pub mod Durable
pub mod Once
pub mod Rule
pub mod Restart
use raftra.Common.{
  ◌+◌, String, Bool, true, false, ltb, leb, ◌==◌, not, ◌||◌, ◌&&◌, if◌then◌else◌, nat_eq, string_eq,
}
use raftra.Proto.{RequestVoteRequest, RequestVoteResponse}
use raftra.Raft.Node.{RaftNode, leader, role_eq}
use raftra.Raft.Term.{check_term, persist_vote}
use raftra.Raft.Timer.{Env, reset_election_timer}
use raftra.Storage.{StorageBackend}

module _ {S : Type 0} where
  reply : RaftNode S → Bool → RequestVoteResponse
  reply rn granted = record { term = rn.persistent.current_term; vote_granted = granted }

  -- time.Since(lastLeaderContact) < ElectionTimeoutMin
  unfoldable pub leader_is_alive : Env → RaftNode S → Bool
  leader_is_alive env rn =
      rn.role == leader || ltb env.now (rn.last_leader_contact + rn.config.election_timeout_min)

module _ {S : Type 0} ⦃b : StorageBackend S⦄ where
  unfoldable pub candidate_log_up_to_date_locked : RequestVoteRequest → RaftNode S → Bool
  candidate_log_up_to_date_locked req rn =
      let last_log_index = (b.last_index rn.storage).0 in
      let last_log_term = (b.last_term rn.storage).0 in
      if not (req.last_log_term == last_log_term)
      then ltb last_log_term req.last_log_term
      else leb last_log_index req.last_log_index

  unfoldable pub handle_pre_vote_locked :
      Env → RequestVoteRequest → RaftNode S → RequestVoteResponse
  unfolding reply leader_is_alive candidate_log_up_to_date_locked
  handle_pre_vote_locked env req rn = reply rn (
      ltb rn.persistent.current_term req.term
      && not (leader_is_alive env rn)
      && candidate_log_up_to_date_locked req rn)

  grant : Env → String → RaftNode S → RaftNode S
  grant env candidate_id rn = reset_election_timer env (
      persist_vote candidate_id
        (record rn { persistent = record rn.persistent { voted_for = candidate_id } }))

  -- Rules 2 and 3, in a term that is not newer than the node's.
  consider_vote : Env → RequestVoteRequest → RaftNode S → RaftNode S × RequestVoteResponse
  unfolding grant reply candidate_log_up_to_date_locked
  consider_vote env req rn =
      let can_vote = rn.persistent.voted_for == "" || rn.persistent.voted_for == req.candidate_id in
      if can_vote && candidate_log_up_to_date_locked req rn
      then (let rn' = grant env req.candidate_id rn in (rn', reply rn' true))
      else (rn, reply rn false)

  unfoldable pub handle_request_vote :
      Env → RequestVoteRequest → RaftNode S → RaftNode S × RequestVoteResponse
  unfolding consider_vote
  handle_request_vote env req rn =
      if req.pre_vote
      then (rn, handle_pre_vote_locked env req rn)
      else if ltb req.term rn.persistent.current_term
      then (rn, reply rn false)
      else consider_vote env req (check_term req.term rn).0
