-- ===== src/Tests/Indices.antt =====
-- The indices and the log of a node of the test cluster over a run (internal/raft).
use raftra.Common.{
  ℕ, ◌+◌, ◌≤◌, ◌<◌, ◌^◌, ◌≡◌, ◌≢◌, refl, true, false, Option, none, some, [], ◌∷◌, arith, string_eq,
  nat_eq, All, List, ◌++◌,
}
use raftra.Kvstore.{new_kv_store}
use raftra.Proto.{RequestVoteResponse}
use raftra.Raft.Append.{handle_append_entries}
use raftra.Raft.Election.{on_pre_vote_response, on_vote_response}
use raftra.Raft.Node.{nil, RaftNode, Ballot, Config, created, new_raft_node, leader, follower}
use raftra.Raft.Propose.{on_append_response, propose_command}
use raftra.Proto.{LogEntry}
use raftra.Raft.Steps.Tenure.{AllQuiet, leader_append_only}
use raftra.Raft.Steps.Proceeds.{IsRoomy, indices_monotone, never_panics}
use raftra.Raft.Steps.{Reach, here, next, append_entries, pre_vote_response, vote_response, propose}
use raftra.Storage.Memory
use raftra.Storage.Memory.{MemoryStore, memory_backend}
use raftra.Tests.Fixtures.{methods, test_codec, env1, config1, node1, append_request3}

abbrev followed : RaftNode MemoryStore
followed = (handle_append_entries env1 append_request3 node1).0

following : Reach node1 followed
following = next here (omega arith) (append_entries env1 append_request3)

following-IsRoomy : IsRoomy following
unfolding following methods
following-IsRoomy = ((omega arith, omega arith), (omega arith, omega arith))

has_peers : ◌≢◌ {A = ℕ} 2 0
has_peers e = omega arith

indices_monotone_example :
    (0 ≤ followed.volatile.commit_index)
    × (0 ≤ followed.volatile.last_applied)
    × (followed.volatile.last_applied ≤ followed.volatile.commit_index)
indices_monotone_example = indices_monotone following following-IsRoomy has_peers (omega arith)

-- A node that is started with two peers, and wins an election.
abbrev config2 : Config
config2 = record config1 {
  peers =
      record { id = "n2"; address = "localhost:50052" }
      ∷ record { id = "n3"; address = "localhost:50053" }
      ∷ [];
}

abbrev started1 : RaftNode MemoryStore
started1 = record node1 { config = config2; election_timer = nil; election_deadline = 0 }

new_raft_node-started1 : new_raft_node config2 node1.storage new_kv_store ≡ created started1
unfolding methods new_raft_node new_kv_store Memory.load_term Memory.load_voted_for
    Memory.load_all_entries
new_raft_node-started1 = refl

abbrev ready : Ballot
ready = record { term = 2; votes = 1; majority = 2; started = 0; campaigned = false }

abbrev round3 : Ballot
round3 = record { term = 3; votes = 1; majority = 2; started = 1000; campaigned = false }

abbrev granted : ℕ → Option RequestVoteResponse
granted t = some (record { term = t; vote_granted = true })

abbrev campaigning : RaftNode MemoryStore
campaigning = (on_pre_vote_response env1 ready (granted 2) started1).1

abbrev leading : RaftNode MemoryStore
leading = (on_vote_response env1 round3 (granted 3) campaigning).1

leading_small : campaigning.persistent.current_term + 1 < 2 ^ 64
unfolding methods
leading_small = omega arith

elected : Reach started1 leading
elected =
    next (next here (omega arith) (pre_vote_response env1 ready (granted 2))) leading_small
      (vote_response env1 round3 (granted 3))

elected-IsRoomy : IsRoomy elected
unfolding elected methods
elected-IsRoomy =
    (((omega arith, omega arith), (omega arith, omega arith)), (omega arith, omega arith))

never_panics_example :
    on_append_response env1 "n2" append_request3
      (some (record { term = 3; success = true }))
      leading
    ≢ none
never_panics_example =
    never_panics config2 node1.storage new_kv_store elected env1 "n2" append_request3
      (some (record { term = 3; success = true })) new_raft_node-started1 has_peers elected-IsRoomy

abbrev proposed : RaftNode MemoryStore
proposed = (propose_command (1 ∷ []) leading).0

leads_small : leading.persistent.current_term + 1 < 2 ^ 64
unfolding methods
leads_small = omega arith

proposing : Reach campaigning proposed
proposing =
    next (next here leading_small (vote_response env1 round3 (granted 3))) leads_small
      (propose (1 ∷ []))

proposed_leads :
    (proposed.role ≡ leader)
    × (proposed.persistent.current_term ≡ campaigning.persistent.current_term)
unfolding methods
proposed_leads = (refl, refl)

proposing-AllQuiet : AllQuiet proposing
unfolding proposing
proposing-AllQuiet = ((tt, tt), tt)

leader_append_only_example :
    (campaigning.role ≢ follower)
    × ((added : List LogEntry) × (proposed.persistent.log ≡ campaigning.persistent.log ++ added)
        × All (λ e. e.term ≡ proposed.persistent.current_term) added)
leader_append_only_example =
    leader_append_only proposing proposing-AllQuiet proposed_leads.0 proposed_leads.1
