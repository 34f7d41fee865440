-- ===== src/Tests/Fixtures.antt =====
-- A three-node cluster as seen by its nodes, over the in-memory store (internal/raft tests use the
-- same set-up).
use raftra.Common.{
  ◌≡◌, ℕ, String, false, Option, none, some, List, refl, [], ◌∷◌, ◌==◌, string_eq, nat_eq, u64,
  if◌then◌else◌,
}
use raftra.GoMap
use raftra.Kvstore
use raftra.Kvstore.{new_kv_store, Bytes, Codec, Command, cmd_set, cmd_delete, KvStore}
use raftra.Proto.{LogEntry, RequestVoteRequest, AppendEntriesRequest}
use raftra.Raft.Append.{
  is_consistent, merge_entries, append_rest, cut_at, replace_from, follow_commit,
  handle_append_entries,
}
use raftra.Raft.Apply.{command_at, apply_committed_entries_locked}
use raftra.Raft.Commit.{count_matches, majority, check_and_update_commit_index_locked}
use raftra.Raft.Election.{
  peer_ids, fill, become_leader, campaign_locked, start_election, on_pre_vote_response,
  on_vote_response,
}
use raftra.Raft.Durable.{IsWritable}
use raftra.Raft.Node.{
  created, new_raft_node, Config, PeerConfig, RaftNode, LeaderState, follower, leader, due, nil,
}
use raftra.Raft.Propose.{propose_command, finish_proposal, on_append_response}
use raftra.Raft.Run.{on_election_timer, on_heartbeat_timer}
use raftra.Raft.Send.{
  at, capped, append_request, send_append_entries_to_peer_locked, broadcast_append_entries_locked,
}
use raftra.Raft.Term.{abort_sends, abort_deletes, persist_term, persist_vote, check_term}
use raftra.Raft.Timer.{
  Env, randomized_election_timeout, reset_election_timer, reset_heartbeat_timer,
}
use raftra.Raft.Vote.{
  leader_is_alive, candidate_log_up_to_date_locked, handle_pre_vote_locked, handle_request_vote,
}
use raftra.Storage.Memory
use raftra.Storage.Memory.{MemoryStore, memory_backend}
use raftra.Storage.{sentinel}

-- What an evaluation of the node's methods opens.
unfoldable pub methods : Unit {0}
unfolding GoMap.lookup GoMap.insert GoMap.delete Kvstore.apply Kvstore.get Kvstore.size u64
    Memory.save_term Memory.save_voted_for Memory.append_entries Memory.get_entry
    Memory.get_entries_from Memory.truncate_from Memory.last_index Memory.last_term command_at
    apply_committed_entries_locked count_matches majority check_and_update_commit_index_locked at
    capped append_request send_append_entries_to_peer_locked broadcast_append_entries_locked
    abort_sends abort_deletes persist_term persist_vote check_term randomized_election_timeout
    reset_election_timer reset_heartbeat_timer leader_is_alive candidate_log_up_to_date_locked
    handle_pre_vote_locked handle_request_vote append_rest cut_at replace_from merge_entries
    is_consistent follow_commit handle_append_entries peer_ids fill become_leader campaign_locked
    start_election on_pre_vote_response on_vote_response propose_command finish_proposal
    on_append_response on_election_timer on_heartbeat_timer
methods = tt

-- The in-memory store takes every write of the term and the vote.
pub memory-IsWritable : IsWritable memory_backend
unfolding methods
memory-IsWritable = record { save_term-ok = λ t s. refl; save_voted_for-ok = λ c s. refl }

-- The byte 1 stands for SET x 1, and 2 for DELETE x.
abbrev pub set_x : Command
set_x = record { kind = cmd_set; key = "x"; value = "1" }

abbrev pub delete_x : Command
delete_x = record { kind = cmd_delete; key = "x"; value = "" }

abbrev decode : Bytes → Option Command
decode [] = none
decode (byte ∷ _) = if byte == 1 then some set_x else if byte == 2 then some delete_x else none

instance abbrev pub test_codec : Codec
test_codec = record {
  encode = λ c. if c.kind == cmd_set then some (1 ∷ []) else some (2 ∷ []);
  decode_command = decode;
}

abbrev pub config1 : Config
config1 = record {
  node_id = "n1";
  peers = [];
  election_timeout_min = 150;
  election_timeout_max = 300;
  heartbeat_interval = 50;
  data_dir = "";
}

abbrev pub env1 : Env
env1 = record { now = 1000; int63n = λ n. 0 }

abbrev pub entry : ℕ → ℕ → Bytes → LogEntry
entry index term command = record { index = index; term = term; command = command }

abbrev pub peers1 : GoMap.GoMap String PeerConfig
peers1 =
    ("n2", record { id = "n2"; address = "localhost:50052" })
    ∷ ("n3", record { id = "n3"; address = "localhost:50053" })
    ∷ []

abbrev pub log1 : List LogEntry
log1 = sentinel ∷ entry 1 1 (1 ∷ []) ∷ entry 2 1 (2 ∷ []) ∷ []

-- A follower in term 2 that has not voted, with two entries of term 1.
abbrev pub node1 : RaftNode MemoryStore
node1 = record {
  config = config1;
  role = follower;
  peers = peers1;
  persistent = record { current_term = 2; voted_for = ""; log = log1 };
  volatile = record { commit_index = 0; last_applied = 0 };
  leader_state = none;
  leader_id = "";
  last_leader_contact = 0;
  kv_store = record { table = [] };
  storage = record { term = 2; voted_for = ""; entries = log1 };
  metrics = none;
  stopped = false;
  election_timer = due 900;
  heartbeat_timer = nil;
  election_deadline = 900;
  pending_commits = [];
  next_channel = 0;
  sent = [];
  spawned = [];
}

-- The same node as the leader of term 1; n2 holds both entries, and a client waits for each.
abbrev pub leader_state1 : LeaderState
leader_state1 = record {
  next_index = ("n2", 3) ∷ ("n3", 1) ∷ [];
  match_index = ("n2", 2) ∷ ("n3", 0) ∷ [];
}

abbrev pub leader1 : RaftNode MemoryStore
leader1 = record node1 {
  role = leader;
  persistent = record { current_term = 1; voted_for = "n1"; log = log1 };
  storage = record { term = 1; voted_for = "n1"; entries = log1 };
  leader_state = some leader_state1;
  pending_commits = (1, 0) ∷ (2, 1) ∷ [];
  next_channel = 2;
}

abbrev pub vote_request : String → ℕ → RequestVoteRequest
vote_request candidate_id term = record {
  term = term;
  candidate_id = candidate_id;
  last_log_index = 2;
  last_log_term = 1;
  pre_vote = false;
}

-- The leader of term 3 holds an entry of its own term at index 2.
abbrev pub leader_log3 : List LogEntry
leader_log3 = sentinel ∷ entry 1 1 (1 ∷ []) ∷ entry 2 3 [] ∷ []

abbrev pub append_request3 : AppendEntriesRequest
append_request3 = record {
  term = 3;
  leader_id = "n2";
  prev_log_index = 1;
  prev_log_term = 1;
  entries = entry 2 3 [] ∷ [];
  leader_commit = 1;
}

-- The node after a restart from the storage of `rn`.
abbrev pub restarted : RaftNode MemoryStore → RaftNode MemoryStore
restarted rn = record node1 {
  peers = [];
  persistent = record {
    current_term = rn.storage.term;
    voted_for = rn.storage.voted_for;
    log = rn.storage.entries;
  };
  storage = rn.storage;
  election_timer = nil;
  election_deadline = 0;
}

pub new_raft_node-restarted :
    (rn : RaftNode MemoryStore)
    → new_raft_node config1 rn.storage new_kv_store ≡ created (restarted rn)
unfolding methods new_raft_node new_kv_store Memory.load_term Memory.load_voted_for
    Memory.load_all_entries
new_raft_node-restarted rn = refl
