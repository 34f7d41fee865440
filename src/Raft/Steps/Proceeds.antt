-- ===== src/Raft/Steps/Proceeds.antt =====
-- The indices of a node over any run of steps (internal/raft), and why the answer to an AppendEntries
-- RPC never meets a nil `rn.leader`.
use raftra.Common.{
  ◌+◌, ◌≤◌, ◌<◌, ◌^◌, String, ◌≡◌, ◌≢◌, refl, sym, ap, ◌∙◌, inl, inr, Option, none, arith, ◌==◌,
  string_eq, nat_eq, length, Bool-cases,
}
use raftra.Kvstore.{Codec, KvStore}
use raftra.Proto.{RequestVoteRequest, AppendEntriesRequest, AppendEntriesResponse}
use raftra.Raft.Append.Proceeds.{handle_append_entries-Proceeds}
use raftra.Raft.Commit.Proceeds.{HasRoom}
use raftra.Raft.Election.Office.{Moves}
use raftra.Raft.Election.Proceeds.{
  Grows, start_election-Grows, on_pre_vote_response-Grows, on_vote_response-Grows,
}
use raftra.Raft.Election.Tally.{on_vote_response-IsTallied}
use raftra.Raft.Node.{RaftNode, Config, created, new_raft_node, role_eq, leader}
use raftra.Raft.Proceeds.{
  IsEquipped, IsOrdered, Proceeds, Proceeds-refl, Proceeds-trans, reset_election_timer-Proceeds,
}
use raftra.Raft.Propose.Proceeds.{
  propose_command-Proceeds, finish_proposal-Proceeds, on_append_response-Proceeds,
  on_append_response-ne-none,
}
use raftra.Raft.Propose.{on_append_response}
use raftra.Raft.Run.{on_election_timer, set_metrics, stop}
use raftra.Raft.Send.Proceeds.{on_heartbeat_timer-Proceeds}
use raftra.Raft.Steps.Office.{Step-Moves}
use raftra.Raft.Steps.{
  Metrics, Step, request_vote, append_entries, election_timer, heartbeat_timer, pre_vote_response,
  vote_response, append_response, propose, finish, started, stopped, metrics, Reach, here, next,
}
use raftra.Raft.Term.{check_term}
use raftra.Raft.Timer.{Env, start, reset_election_timer}
use raftra.Raft.Vote.{handle_request_vote}
use raftra.Storage.{StorageBackend}

module _ {S : Type 0} ⦃b : StorageBackend S⦄ ⦃codec : Codec⦄ where
  handle_request_vote-Proceeds :
      (env : Env) (req : RequestVoteRequest) (rn : RaftNode S)
      → Proceeds rn (handle_request_vote env req rn).0
  unfolding handle_request_vote check_term reset_election_timer
  handle_request_vote-Proceeds env req rn = ground arith

  on_election_timer-Grows :
      (env : Env) (rn : RaftNode S)
      → rn.volatile.commit_index + 1 < 2 ^ 64
      → Grows rn (on_election_timer env rn)
  unfolding on_election_timer
  on_election_timer-Grows env rn c = elim (Bool-cases (rn.role == leader)) [
    | inl led ↦ rw led (λ l. reset_election_timer-Proceeds env rn)
    | inr other ↦ rw other (start_election-Grows env rn c)
  ]

  start-Proceeds : (env : Env) (rn : RaftNode S) → Proceeds rn (start env rn)
  unfolding start
  start-Proceeds env rn = ground arith

  stop-Proceeds : (rn : RaftNode S) → Proceeds rn (stop rn)
  unfolding stop
  stop-Proceeds rn = ground arith

  set_metrics-Proceeds : (m : Option Metrics) (rn : RaftNode S) → Proceeds rn (set_metrics m rn)
  unfolding set_metrics
  set_metrics-Proceeds m rn = ground arith

  Step-Proceeds :
      {rn rn' : RaftNode S}
      → Step rn rn'
      → HasRoom rn
      → HasRoom rn'
      → length rn.peers ≢ 0
      → Proceeds rn rn'
  Step-Proceeds {rn} (request_vote env req) h k many = handle_request_vote-Proceeds env req rn
  Step-Proceeds {rn} (append_entries env req) h k many = handle_append_entries-Proceeds env req rn
  Step-Proceeds {rn} (election_timer env) h k many = on_election_timer-Grows env rn h.0 k.1
  Step-Proceeds {rn} (heartbeat_timer env) h k many = on_heartbeat_timer-Proceeds env rn
  Step-Proceeds {rn} (pre_vote_response env ballot res) h k many =
      on_pre_vote_response-Grows env ballot res rn h.0 k.1
  Step-Proceeds {rn} (vote_response env ballot res) h k many =
      on_vote_response-Grows env ballot res rn h.0 k.1
  Step-Proceeds {rn} {rn'} (append_response env peer r resp e) h k many =
      on_append_response-Proceeds env peer r resp rn rn' h e
  Step-Proceeds {rn} (propose cmd) h k many = propose_command-Proceeds cmd rn many
  Step-Proceeds {rn} (finish index event) h k many = finish_proposal-Proceeds index event rn
  Step-Proceeds {rn} (started env) h k many = start-Proceeds env rn
  Step-Proceeds {rn} stopped h k many = stop-Proceeds rn
  Step-Proceeds {rn} (metrics m) h k many = set_metrics-Proceeds m rn

  peers-Moves : {rn rn' : RaftNode S} → Moves rn rn' → rn'.peers ≡ rn.peers
  peers-Moves (inl s) = s.peers
  peers-Moves (inr c) = c.peers

  peers-Step : {rn rn' : RaftNode S} → Step rn rn' → rn'.peers ≡ rn.peers
  peers-Step {rn} (vote_response env ballot res) =
      (on_vote_response-IsTallied env ballot res rn).peers
  peers-Step (request_vote env req) = peers-Moves (Step-Moves (request_vote env req) tt)
  peers-Step (append_entries env req) = peers-Moves (Step-Moves (append_entries env req) tt)
  peers-Step (election_timer env) = peers-Moves (Step-Moves (election_timer env) tt)
  peers-Step (heartbeat_timer env) = peers-Moves (Step-Moves (heartbeat_timer env) tt)
  peers-Step (pre_vote_response env ballot res) =
      peers-Moves (Step-Moves (pre_vote_response env ballot res) tt)
  peers-Step (append_response env peer r resp e) =
      peers-Moves (Step-Moves (append_response env peer r resp e) tt)
  peers-Step (propose cmd) = peers-Moves (Step-Moves (propose cmd) tt)
  peers-Step (finish index event) = peers-Moves (Step-Moves (finish index event) tt)
  peers-Step (started env) = peers-Moves (Step-Moves (started env) tt)
  peers-Step stopped = peers-Moves (Step-Moves stopped tt)
  peers-Step (metrics m) = peers-Moves (Step-Moves (metrics m) tt)

  -- At every point of the run the indices have a successor in uint64.
  abbrev pub IsRoomy : {rn rn' : RaftNode S} → Reach rn rn' → Type 0
  IsRoomy {rn} here = HasRoom rn
  IsRoomy {rn} {rn'} (next r small st) = IsRoomy r × HasRoom rn'

  HasRoom-last : {rn rn' : RaftNode S} (r : Reach rn rn') → IsRoomy r → HasRoom rn'
  HasRoom-last here h = h
  HasRoom-last (next r small st) h = h.1

  peers-Reach : {rn rn' : RaftNode S} → Reach rn rn' → rn'.peers ≡ rn.peers
  peers-Reach here = refl
  peers-Reach (next r small st) = peers-Step st ∙ peers-Reach r

  Reach-Proceeds :
      {rn rn' : RaftNode S} (r : Reach rn rn') → IsRoomy r → length rn.peers ≢ 0 → Proceeds rn rn'
  Reach-Proceeds {rn} here h many = Proceeds-refl rn
  Reach-Proceeds {rn} (next r small st) h many =
      Proceeds-trans (Reach-Proceeds r h.0 many) (
        Step-Proceeds st (HasRoom-last r h.0) h.1 (λ e. many (sym (ap length (peers-Reach r)) ∙ e)))

  -- Over any run of steps of a node with peers, while the indices fit uint64, neither the commit index
  -- nor the index of the last applied entry falls, and the second stays within the first.
  pub indices_monotone :
      {rn rn' : RaftNode S} (r : Reach rn rn')
      → IsRoomy r
      → length rn.peers ≢ 0
      → IsOrdered rn
      → (rn.volatile.commit_index ≤ rn'.volatile.commit_index)
        × (rn.volatile.last_applied ≤ rn'.volatile.last_applied)
        × (rn'.volatile.last_applied ≤ rn'.volatile.commit_index)
  indices_monotone r roomy many o =
      let p = Reach-Proceeds r roomy many in (p.commit, p.applied, p.ordered o)

  new_raft_node-IsEquipped :
      (config : Config) (s : S) (kv : KvStore) (rn : RaftNode S)
      → new_raft_node config s kv ≡ created rn
      → IsEquipped rn
  unfolding new_raft_node
  new_raft_node-IsEquipped config s kv rn e l = absurd (ground (arith, e, l))

  -- A node with peers that is started from its storage and runs, while the indices fit uint64, takes
  -- every answer to an AppendEntries RPC, late and stale ones included, without the panic of a nil
  -- `rn.leader`.
  pub never_panics :
      (config : Config) (s : S) (kv : KvStore) {first rn : RaftNode S} (r : Reach first rn)
      (env : Env) (peer : String) (req : AppendEntriesRequest) (resp : Option AppendEntriesResponse)
      → new_raft_node config s kv ≡ created first
      → length first.peers ≢ 0
      → IsRoomy r
      → on_append_response env peer req resp rn ≢ none
  never_panics config s kv {first} {rn} r env peer req resp e many roomy =
      on_append_response-ne-none env peer req resp rn
        ((Reach-Proceeds r roomy many).equipped (new_raft_node-IsEquipped config s kv first e))
