-- ===== src/Raft/Steps/Advance.antt =====
-- The term and the vote of a node (internal/raft) over any run of steps.
use raftra.Common.{◌+◌, ◌≤◌, ◌<◌, ◌^◌, arith, string_eq, nat_eq}
use raftra.Kvstore.{Codec}
use raftra.Raft.Advance.{
  Advances, Advances-refl, Advances-trans, persistent-reset_election_timer,
  persistent-reset_heartbeat_timer,
}
use raftra.Raft.Append.Advance.{handle_append_entries-Advances}
use raftra.Raft.Election.Advance.{
  start_election-Advances, on_pre_vote_response-Advances, on_vote_response-Advances,
}
use raftra.Raft.Node.{RaftNode}
use raftra.Raft.Propose.Advance.{
  propose_command-Advances, finish_proposal-Advances, on_append_response-Advances,
}
use raftra.Raft.Run.{on_election_timer, on_heartbeat_timer, set_metrics, stop}
use raftra.Raft.Send.Frame.{broadcast-IsSent}
use raftra.Raft.Steps.{
  Step, request_vote, append_entries, election_timer, heartbeat_timer, pre_vote_response,
  vote_response, append_response, propose, finish, started, stopped, metrics, Reach, here, next,
}
use raftra.Raft.Timer.{Env, start}
use raftra.Raft.Vote.Advance.{handle_request_vote-Advances}
use raftra.Storage.{StorageBackend}

module _ {S : Type 0} ⦃b : StorageBackend S⦄ ⦃codec : Codec⦄ where
  on_election_timer-Advances :
      (env : Env) (rn : RaftNode S)
      → rn.persistent.current_term + 1 < 2 ^ 64
      → Advances rn.persistent (on_election_timer env rn).persistent
  unfolding on_election_timer
  on_election_timer-Advances env rn h =
      ground (arith, persistent-reset_election_timer env rn, start_election-Advances env rn h)

  on_heartbeat_timer-Advances :
      (env : Env) (rn : RaftNode S) → Advances rn.persistent (on_heartbeat_timer env rn).persistent
  unfolding on_heartbeat_timer
  on_heartbeat_timer-Advances env rn =
      grind (arith, persistent-reset_heartbeat_timer, broadcast-IsSent rn)

  stop-Advances : (rn : RaftNode S) → Advances rn.persistent (stop rn).persistent
  unfolding stop
  stop-Advances rn = ground arith

  pub Step-Advances :
      {rn rn' : RaftNode S}
      → Step rn rn'
      → rn.persistent.current_term + 1 < 2 ^ 64
      → Advances rn.persistent rn'.persistent
  unfolding start set_metrics
  Step-Advances {rn} (request_vote env req) h = handle_request_vote-Advances env req rn
  Step-Advances {rn} (append_entries env req) h = handle_append_entries-Advances env req rn
  Step-Advances {rn} (election_timer env) h = on_election_timer-Advances env rn h
  Step-Advances {rn} (heartbeat_timer env) h = on_heartbeat_timer-Advances env rn
  Step-Advances {rn} (pre_vote_response env ballot res) h =
      on_pre_vote_response-Advances env ballot res rn h
  Step-Advances {rn} (vote_response env ballot res) h = on_vote_response-Advances env ballot res rn
  Step-Advances {rn} {rn'} (append_response env peer r resp e) h =
      on_append_response-Advances env peer r resp rn rn' e
  Step-Advances {rn} (propose cmd) h = propose_command-Advances cmd rn
  Step-Advances {rn} (finish index event) h = finish_proposal-Advances index event rn
  Step-Advances {rn} (started env) h = Advances-refl rn.persistent
  Step-Advances {rn} stopped h = stop-Advances rn
  Step-Advances {rn} (metrics m) h = Advances-refl rn.persistent

  pub Reach-Advances : {rn rn' : RaftNode S} → Reach rn rn' → Advances rn.persistent rn'.persistent
  Reach-Advances {rn} here = Advances-refl rn.persistent
  Reach-Advances {rn} {rn'} (next {s} r h st) =
      Advances-trans rn.persistent s.persistent rn'.persistent (Reach-Advances r)
        (Step-Advances st h)

  -- Over any run of steps, while the term fits uint64, the term never falls.
  pub term_monotone :
      {rn rn' : RaftNode S}
      → Reach rn rn'
      → rn.persistent.current_term ≤ rn'.persistent.current_term
  term_monotone {rn} {rn'} r = ground (arith, Reach-Advances r)
