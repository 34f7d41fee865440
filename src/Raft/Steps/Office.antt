-- ===== src/Raft/Steps/Office.antt =====
-- What a step of a node does to the offices (internal/raft), all but the answer to a vote request.
use raftra.Common.{inl, inr, Option, arith, ◌==◌, string_eq, nat_eq, Bool-cases}
use raftra.Kvstore.{Codec}
use raftra.Raft.Append.Office.{handle_append_entries-Stays}
use raftra.Raft.Election.Office.{Moves, start_election-Moves, on_pre_vote_response-Moves}
use raftra.Raft.Node.{RaftNode, role_eq, leader}
use raftra.Raft.Office.Serves.{reset_election_timer-Stays, stop-Stays, handle_request_vote-Stays}
use raftra.Raft.Office.{Stays}
use raftra.Raft.Propose.Office.{
  propose_command-Stays, finish_proposal-Stays, on_append_response-Stays,
}
use raftra.Raft.Run.{on_election_timer, set_metrics}
use raftra.Raft.Send.Office.{on_heartbeat_timer-Stays}
use raftra.Raft.Steps.{
  Metrics, Step, request_vote, append_entries, election_timer, heartbeat_timer, pre_vote_response,
  vote_response, append_response, propose, finish, started, stopped, metrics,
}
use raftra.Raft.Timer.{Env, start}
use raftra.Storage.{StorageBackend}

module _ {S : Type 0} ⦃b : StorageBackend S⦄ ⦃codec : Codec⦄ where
  -- Not the answer to a vote request.
  abbrev pub IsLocal : {rn rn' : RaftNode S} → Step rn rn' → Type 0
  IsLocal (request_vote env req) = Unit
  IsLocal (append_entries env req) = Unit
  IsLocal (election_timer env) = Unit
  IsLocal (heartbeat_timer env) = Unit
  IsLocal (pre_vote_response env ballot res) = Unit
  IsLocal (vote_response env ballot res) = ⊥
  IsLocal (append_response env peer r resp e) = Unit
  IsLocal (propose cmd) = Unit
  IsLocal (finish index event) = Unit
  IsLocal (started env) = Unit
  IsLocal stopped = Unit
  IsLocal (metrics m) = Unit

  on_election_timer-Moves : (env : Env) (rn : RaftNode S) → Moves rn (on_election_timer env rn)
  unfolding on_election_timer
  on_election_timer-Moves env rn = elim (Bool-cases (rn.role == leader)) [
    | inl led ↦ rw led (inl (reset_election_timer-Stays env rn))
    | inr other ↦ rw other (start_election-Moves env rn)
  ]

  start-Stays : (env : Env) (rn : RaftNode S) → Stays rn (start env rn)
  unfolding start
  start-Stays env rn = ground arith

  set_metrics-Stays : (m : Option Metrics) (rn : RaftNode S) → Stays rn (set_metrics m rn)
  unfolding set_metrics
  set_metrics-Stays m rn = ground arith

  pub Step-Moves : {rn rn' : RaftNode S} (st : Step rn rn') → IsLocal st → Moves rn rn'
  Step-Moves {rn} (request_vote env req) l = inl (handle_request_vote-Stays env req rn)
  Step-Moves {rn} (append_entries env req) l = inl (handle_append_entries-Stays env req rn)
  Step-Moves {rn} (election_timer env) l = on_election_timer-Moves env rn
  Step-Moves {rn} (heartbeat_timer env) l = inl (on_heartbeat_timer-Stays env rn)
  Step-Moves {rn} (pre_vote_response env ballot res) l =
      on_pre_vote_response-Moves env ballot res rn
  Step-Moves {rn} (vote_response env ballot res) l = absurd l
  Step-Moves {rn} {rn'} (append_response env peer r resp e) l =
      inl (on_append_response-Stays env peer r resp rn rn' e)
  Step-Moves {rn} (propose cmd) l = inl (propose_command-Stays cmd rn)
  Step-Moves {rn} (finish index event) l = inl (finish_proposal-Stays index event rn)
  Step-Moves {rn} (started env) l = inl (start-Stays env rn)
  Step-Moves {rn} stopped l = inl (stop-Stays rn)
  Step-Moves {rn} (metrics m) l = inl (set_metrics-Stays m rn)
