-- ===== src/Raft/Election/Advance.antt =====
-- The campaign and its answers (internal/raft/election.go) advance the term and the vote.
use raftra.Common.{
  ◌+◌, ◌<◌, ◌^◌, ◌≡◌, refl, ◌∙◌, inl, inr, Option, none, some, arith, ◌==◌, string_eq, nat_eq,
  u64-eq_of_lt, Bool-cases,
}
use raftra.Kvstore.{Codec}
use raftra.Proto.{RequestVoteResponse}
use raftra.Raft.Advance.{
  Advances, Advances-refl, persistent-reset_election_timer, persistent-reset_heartbeat_timer,
}
use raftra.Raft.Commit.Frame.{check_and_update-IsCommitted}
use raftra.Raft.Commit.{check_and_update_commit_index_locked}
use raftra.Raft.Election.{
  candidate, append_noop, take_office, stand, become_leader, campaign_locked, start_election,
  answer_pre_vote, on_pre_vote_response, answer_vote, on_vote_response,
}
use raftra.Raft.Node.{RaftNode, Ballot, candidate, role_eq}
use raftra.Raft.Send.Frame.{broadcast-IsSent}
use raftra.Raft.Send.{broadcast_append_entries_locked}
use raftra.Raft.Term.{check_term, persist_term, persist_vote}
use raftra.Raft.Timer.{Env, reset_election_timer, reset_heartbeat_timer}
use raftra.Storage.{StorageBackend}

module _ {S : Type 0} ⦃b : StorageBackend S⦄ ⦃codec : Codec⦄ where
  persistent-tail :
      (env : Env) (rn : RaftNode S)
      → (reset_heartbeat_timer env
          (broadcast_append_entries_locked (check_and_update_commit_index_locked rn))).persistent
        ≡ rn.persistent
  persistent-tail env rn =
      persistent-reset_heartbeat_timer env _
      ∙ (broadcast-IsSent (check_and_update_commit_index_locked rn)).kept.persistent
      ∙ (check_and_update-IsCommitted rn).kept.persistent

  append_noop-SameVote :
      (rn : RaftNode S)
      → ((append_noop (take_office rn)).persistent.current_term ≡ rn.persistent.current_term)
        × ((append_noop (take_office rn)).persistent.voted_for ≡ rn.persistent.voted_for)
  unfolding append_noop take_office
  append_noop-SameVote rn = ground arith

  -- The step to leader keeps the term and the vote.
  pub become_leader-SameVote :
      (env : Env) (rn : RaftNode S)
      → ((become_leader env rn).persistent.current_term ≡ rn.persistent.current_term)
        × ((become_leader env rn).persistent.voted_for ≡ rn.persistent.voted_for)
  become_leader-SameVote env rn = elim (Bool-cases (rn.role == candidate)) [
    | inl e ↦
        unfold become_leader in
        rw e (rw (persistent-tail env (append_noop (take_office rn))) (append_noop-SameVote rn))
    | inr e ↦ unfold become_leader in rw e (refl, refl)
  ]

  stand-Advances :
      (env : Env) (rn : RaftNode S)
      → rn.persistent.current_term + 1 < 2 ^ 64
      → Advances rn.persistent (stand env rn).persistent
  unfolding stand persist_term persist_vote reset_election_timer
  stand-Advances env rn h = ground (arith, u64-eq_of_lt (rn.persistent.current_term + 1) h)

  pub campaign_locked-Advances :
      (env : Env) (rn : RaftNode S)
      → rn.persistent.current_term + 1 < 2 ^ 64
      → Advances rn.persistent (campaign_locked env rn).persistent
  campaign_locked-Advances env rn h =
      unfold campaign_locked in
      ground (arith, stand-Advances env rn h, become_leader-SameVote env (stand env rn))

  pub start_election-Advances :
      (env : Env) (rn : RaftNode S)
      → rn.persistent.current_term + 1 < 2 ^ 64
      → Advances rn.persistent (start_election env rn).persistent
  unfolding start_election
  start_election-Advances env rn h = ground (
    arith,
    persistent-reset_election_timer env rn,
    campaign_locked-Advances env (reset_election_timer env rn),
  )

  answer_pre_vote-Advances :
      (env : Env) (ballot : Ballot) (res : RequestVoteResponse) (rn : RaftNode S)
      → rn.persistent.current_term + 1 < 2 ^ 64
      → Advances rn.persistent (answer_pre_vote env ballot res rn).1.persistent
  unfolding answer_pre_vote check_term
  answer_pre_vote-Advances env ballot res rn h =
      grind (arith, persistent-reset_election_timer, campaign_locked-Advances env rn)

  answer_vote-Advances :
      (env : Env) (ballot : Ballot) (res : RequestVoteResponse) (rn : RaftNode S)
      → Advances rn.persistent (answer_vote env ballot res rn).1.persistent
  unfolding answer_vote check_term
  answer_vote-Advances env ballot res rn =
      grind (arith, persistent-reset_election_timer, become_leader-SameVote env rn)

  pub on_pre_vote_response-Advances :
      (env : Env) (ballot : Ballot) (res : Option RequestVoteResponse) (rn : RaftNode S)
      → rn.persistent.current_term + 1 < 2 ^ 64
      → Advances rn.persistent (on_pre_vote_response env ballot res rn).1.persistent
  unfolding on_pre_vote_response
  on_pre_vote_response-Advances env ballot none rn h = Advances-refl rn.persistent
  on_pre_vote_response-Advances env ballot (some res) rn h =
      answer_pre_vote-Advances env ballot res _ h

  pub on_vote_response-Advances :
      (env : Env) (ballot : Ballot) (res : Option RequestVoteResponse) (rn : RaftNode S)
      → Advances rn.persistent (on_vote_response env ballot res rn).1.persistent
  unfolding on_vote_response
  on_vote_response-Advances env ballot none rn = Advances-refl rn.persistent
  on_vote_response-Advances env ballot (some res) rn = answer_vote-Advances env ballot res _
