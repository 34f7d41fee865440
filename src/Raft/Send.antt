-- ===== src/Raft/Send.antt =====
-- Outgoing AppendEntries RPCs of internal/raft/replication.go. What a goroutine does when the answer
-- arrives is in Raft/Propose.antt.
pub mod Proceeds
pub mod Office
pub mod Frame
use raftra.Common.{
  ℕ, ◌-◌, String, Option, none, some, List, [], ◌∷◌, ◌++◌, ltb, ◌==◌, if◌then◌else◌, nat_eq,
  string_eq, length, take,
}
use raftra.GoMap
use raftra.GoMap.{GoMap}
use raftra.Proto.{LogEntry, AppendEntriesRequest}
use raftra.Raft.Node.{RaftNode, LeaderState, PeerConfig, leader, role_eq, append}
use raftra.Storage.{StorageBackend, checked}

abbrev pub max_entries_per_append : ℕ
max_entries_per_append = 256

-- m[k] of a map of numbers: 0 for a key that is missing.
unfoldable pub at : GoMap String ℕ → String → ℕ
at m k = elim (GoMap.lookup m k) [ none ↦ 0 | some n ↦ n ]

unfoldable pub capped : List LogEntry → List LogEntry
capped entries =
    if ltb max_entries_per_append (length entries)
    then take max_entries_per_append entries
    else entries

abbrev term_or_zero : Option LogEntry → ℕ
term_or_zero none = 0
term_or_zero (some entry) = entry.term

module _ {S : Type 0} ⦃b : StorageBackend S⦄ where
  -- The request for a peer whose next index is `next_idx`, not 0.
  unfoldable pub append_request : RaftNode S → ℕ → AppendEntriesRequest
  unfolding capped
  append_request rn next_idx = record {
    term = rn.persistent.current_term;
    leader_id = rn.config.node_id;
    prev_log_index = next_idx - 1;
    prev_log_term = term_or_zero (checked (b.get_entry (next_idx - 1) rn.storage));
    entries = capped (b.get_entries_from next_idx rn.storage).0;
    leader_commit = rn.volatile.commit_index;
  }

  send_from : String → ℕ → LeaderState → RaftNode S → RaftNode S
  unfolding append_request
  send_from peer next_idx ls rn = record rn {
    leader_state = some ls;
    spawned = rn.spawned ++ append peer (append_request rn next_idx) ∷ [];
  }

  unfoldable pub send_append_entries_to_peer_locked : String → RaftNode S → RaftNode S
  unfolding send_from at
  send_append_entries_to_peer_locked peer rn =
      if rn.role == leader
      then elim rn.leader_state [
        | none ↦ rn
        | some ls ↦
            let next_idx = at ls.next_index peer in
            if next_idx == 0
            then send_from peer 1 (record ls { next_index = GoMap.insert ls.next_index peer 1 }) rn
            else send_from peer next_idx ls rn
      ]
      else rn

  send_to_all : GoMap String PeerConfig → RaftNode S → RaftNode S
  send_to_all [] rn = rn
  send_to_all ((peer, p) ∷ rest) rn = send_to_all rest (send_append_entries_to_peer_locked peer rn)

  unfoldable pub broadcast_append_entries_locked : RaftNode S → RaftNode S
  unfolding send_to_all
  broadcast_append_entries_locked rn = if rn.role == leader then send_to_all rn.peers rn else rn

  -- `sendHeartbeats` and `sendHeartbeatsLocked`
  abbrev pub send_heartbeats : RaftNode S → RaftNode S
  send_heartbeats rn = broadcast_append_entries_locked rn
