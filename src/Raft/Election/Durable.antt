-- ===== src/Raft/Election/Durable.antt =====
-- The campaign and its answers (internal/raft/election.go) keep the term and the vote on stable storage.
use raftra.Common.{
  ◌+◌, inl, inr, Option, none, some, arith, ◌==◌, string_eq, nat_eq, u64, Bool-cases,
}
use raftra.Kvstore.{Codec}
use raftra.Proto.{RequestVoteResponse}
use raftra.Raft.Commit.Frame.{check_and_update-IsCommitted}
use raftra.Raft.Commit.{check_and_update_commit_index_locked}
use raftra.Raft.Durable.{IsWritable, IsDurable, IsDurable-kept, check_term-IsDurable}
use raftra.Raft.Election.{
  append_noop, take_office, stand, become_leader, campaign_locked, start_election, answer_pre_vote,
  on_pre_vote_response, answer_vote, on_vote_response,
}
use raftra.Raft.Node.{RaftNode, Ballot, candidate, role_eq}
use raftra.Raft.Send.Frame.{broadcast-IsSent}
use raftra.Raft.Term.{check_term, persist_term, persist_vote}
use raftra.Raft.Timer.{Env, reset_election_timer, reset_heartbeat_timer}
use raftra.Storage.{StorageBackend, IsLawful}

module _ {S : Type 0} ⦃b : StorageBackend S⦄ ⦃codec : Codec⦄ (law : IsLawful b) where
  pub reset_election_timer-IsDurable :
      (env : Env) (rn : RaftNode S) → IsDurable law rn → IsDurable law (reset_election_timer env rn)
  unfolding reset_election_timer
  reset_election_timer-IsDurable env rn h = ground arith

  reset_heartbeat_timer-IsDurable :
      (env : Env) (rn : RaftNode S)
      → IsDurable law rn
      → IsDurable law (reset_heartbeat_timer env rn)
  unfolding reset_heartbeat_timer
  reset_heartbeat_timer-IsDurable env rn h = ground arith

  append_noop-IsDurable :
      (rn : RaftNode S) → IsDurable law rn → IsDurable law (append_noop (take_office rn))
  unfolding append_noop take_office
  append_noop-IsDurable rn h =
      grind (arith, law.term-append_entries rn.storage, law.voted_for-append_entries rn.storage)

  pub become_leader-IsDurable :
      (env : Env) (rn : RaftNode S) → IsDurable law rn → IsDurable law (become_leader env rn)
  become_leader-IsDurable env rn h = elim (Bool-cases (rn.role == candidate)) [
    | inl e ↦
        let noop = append_noop (take_office rn) in
        let committed = check_and_update-IsCommitted noop in
        let sent = broadcast-IsSent (check_and_update_commit_index_locked noop) in
        unfold become_leader in
        rw e (
          reset_heartbeat_timer-IsDurable env _ (
            IsDurable-kept law sent.kept
              (IsDurable-kept law committed.kept (append_noop-IsDurable rn h))))
    | inr e ↦ unfold become_leader in rw e h
  ]

  module _ (ok : IsWritable b) where
    stand-IsDurable : (env : Env) (rn : RaftNode S) → IsDurable law (stand env rn)
    unfolding stand persist_term persist_vote reset_election_timer
    stand-IsDurable env rn =
        let term = u64 (rn.persistent.current_term + 1) in
        let s = (b.save_term term rn.storage).0 in
        ground (
          arith,
          law.term-save_voted_for s rn.config.node_id,
          law.save_term_lem rn.storage term (ok.save_term-ok term rn.storage),
          law.save_voted_for_lem s rn.config.node_id (ok.save_voted_for-ok rn.config.node_id s),
        )

    pub campaign_locked-IsDurable :
        (env : Env) (rn : RaftNode S) → IsDurable law (campaign_locked env rn)
    campaign_locked-IsDurable env rn =
        unfold campaign_locked in
        ground (
          arith,
          stand-IsDurable env rn,
          become_leader-IsDurable env (stand env rn) (stand-IsDurable env rn),
        )

    pub start_election-IsDurable :
        (env : Env) (rn : RaftNode S) → IsDurable law rn → IsDurable law (start_election env rn)
    unfolding start_election
    start_election-IsDurable env rn h = ground (
      arith,
      reset_election_timer-IsDurable env rn h,
      campaign_locked-IsDurable env (reset_election_timer env rn),
    )

    answer_pre_vote-IsDurable :
        (env : Env) (ballot : Ballot) (res : RequestVoteResponse) (rn : RaftNode S)
        → IsDurable law rn
        → IsDurable law (answer_pre_vote env ballot res rn).1
    unfolding answer_pre_vote
    answer_pre_vote-IsDurable env ballot res rn h = ground (
      arith,
      check_term-IsDurable law ok res.term rn h,
      reset_election_timer-IsDurable env (check_term res.term rn).0
          (check_term-IsDurable law ok res.term rn h),
      campaign_locked-IsDurable env (check_term res.term rn).0,
    )

    answer_vote-IsDurable :
        (env : Env) (ballot : Ballot) (res : RequestVoteResponse) (rn : RaftNode S)
        → IsDurable law rn
        → IsDurable law (answer_vote env ballot res rn).1
    unfolding answer_vote
    answer_vote-IsDurable env ballot res rn h = ground (
      arith,
      check_term-IsDurable law ok res.term rn h,
      reset_election_timer-IsDurable env (check_term res.term rn).0
          (check_term-IsDurable law ok res.term rn h),
      become_leader-IsDurable env (check_term res.term rn).0
          (check_term-IsDurable law ok res.term rn h),
    )

    pub on_pre_vote_response-IsDurable :
        (env : Env) (ballot : Ballot) (res : Option RequestVoteResponse) (rn : RaftNode S)
        → IsDurable law rn
        → IsDurable law (on_pre_vote_response env ballot res rn).1
    unfolding on_pre_vote_response
    on_pre_vote_response-IsDurable env ballot none rn h = h
    on_pre_vote_response-IsDurable env ballot (some res) rn h =
        answer_pre_vote-IsDurable env ballot res _ h

    pub on_vote_response-IsDurable :
        (env : Env) (ballot : Ballot) (res : Option RequestVoteResponse) (rn : RaftNode S)
        → IsDurable law rn
        → IsDurable law (on_vote_response env ballot res rn).1
    unfolding on_vote_response
    on_vote_response-IsDurable env ballot none rn h = h
    on_vote_response-IsDurable env ballot (some res) rn h = answer_vote-IsDurable env ballot res _ h
