-- ===== src/Raft/Vote/Rule.antt =====
-- When a vote is granted (internal/raft/election.go): the rules of Raft §5.4.1 in terms of the log.
use raftra.Common.{
  ℕ, ◌+◌, ◌≤◌, ◌<◌, ◌^◌, ◌≡◌, ◌≢◌, ◌⊎◌, ◌↔◌, true, false, List, arith, string_eq, nat_eq, eq_iff,
  length, last_or,
}
use raftra.Proto.{LogEntry, RequestVoteRequest}
use raftra.Raft.Node.{RaftNode, leader, role_eq}
use raftra.Raft.Term.{check_term}
use raftra.Raft.Timer.{Env}
use raftra.Raft.Vote.{candidate_log_up_to_date_locked, handle_pre_vote_locked, handle_request_vote}
use raftra.Storage.{StorageBackend, IsLawful, sentinel}

module _ {S : Type 0} ⦃b : StorageBackend S⦄ (law : IsLawful b) where
  open law use {log}

  -- The candidate's log, as its request describes it, is at least as up to date as a log.
  abbrev pub IsUpToDate : RequestVoteRequest → List LogEntry → Type 0
  IsUpToDate req xs =
      ((last_or sentinel xs).term < req.last_log_term)
      ⊎ ((last_or sentinel xs).term ≡ req.last_log_term) × (length xs ≤ req.last_log_index + 1)

  up_to_date_lem :
      (req : RequestVoteRequest) (rn : RaftNode S)
      → 0 < length (log rn.storage)
      → length (log rn.storage) < 2 ^ 64
      → (candidate_log_up_to_date_locked req rn ≡ true) ↔ IsUpToDate req (log rn.storage)
  unfolding candidate_log_up_to_date_locked
  up_to_date_lem req rn some_entry small =
      ground (arith, law.last_index_lem rn.storage some_entry small, law.last_term_lem rn.storage)

  -- A pre-vote changes nothing in the node, and is granted exactly if the proposed term is newer, the
  -- node does not lead, it has not heard from a leader within the minimum election timeout, and the
  -- candidate's log is up to date.
  pub pre_vote_rule :
      (env : Env) (req : RequestVoteRequest) (rn : RaftNode S)
      → 0 < length (log rn.storage)
      → length (log rn.storage) < 2 ^ 64
      → req.pre_vote ≡ true
      → ((handle_request_vote env req rn).0 ≡ rn)
        × (((handle_request_vote env req rn).1.vote_granted ≡ true) ↔ (
            (rn.persistent.current_term < req.term)
            × (rn.role ≢ leader)
            × (rn.last_leader_contact + rn.config.election_timeout_min ≤ env.now)
            × IsUpToDate req (log rn.storage)))
  unfolding handle_request_vote handle_pre_vote_locked
  pre_vote_rule env req rn some_entry small pre =
      ground (arith, up_to_date_lem req rn some_entry small)

  check_term-log : (t : ℕ) (rn : RaftNode S) → log (check_term t rn).0.storage ≡ log rn.storage
  unfolding check_term
  check_term-log t rn = ground (
    arith,
    law.log-save_term rn.storage t,
    law.log-save_voted_for (b.save_term t rn.storage).0 "",
  )

  check_term-cases :
      (t : ℕ) (rn : RaftNode S)
      → ((rn.persistent.current_term < t)
          × ((check_term t rn).0.persistent.current_term ≡ t)
          × ((check_term t rn).0.persistent.voted_for ≡ ""))
        ⊎ ((t ≤ rn.persistent.current_term) × ((check_term t rn).0.persistent ≡ rn.persistent))
  unfolding check_term
  check_term-cases t rn = ground arith

  -- A vote is granted exactly if the term of the request is newer than the node's, or equal to it
  -- with no vote yet or a vote for the same candidate, and the candidate's log is up to date.
  pub vote_rule :
      (env : Env) (req : RequestVoteRequest) (rn : RaftNode S)
      → 0 < length (log rn.storage)
      → length (log rn.storage) < 2 ^ 64
      → req.pre_vote ≡ false
      → ((handle_request_vote env req rn).1.vote_granted ≡ true) ↔ (
          ((rn.persistent.current_term < req.term)
            ⊎ (rn.persistent.current_term ≡ req.term)
              × ((rn.persistent.voted_for ≡ "") ⊎ (rn.persistent.voted_for ≡ req.candidate_id)))
          × IsUpToDate req (log rn.storage))
  unfolding handle_request_vote
  vote_rule env req rn some_entry small real =
      let rn' = (check_term req.term rn).0 in
      let same = check_term-log req.term rn in
      ground (
        arith,
        check_term-cases req.term rn,
        same,
        up_to_date_lem req rn' (rw same some_entry) (rw same small),
        eq_iff rn'.persistent.voted_for "",
        eq_iff rn'.persistent.voted_for req.candidate_id,
        eq_iff rn.persistent.voted_for "",
        eq_iff rn.persistent.voted_for req.candidate_id,
      )
