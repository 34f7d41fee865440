-- ===== src/Raft/Send/Frame.antt =====
-- What the sending of AppendEntries RPCs (internal/raft/replication.go) leaves alone.
use raftra.Common.{String, [], ◌∷◌, ◌≡◌, ◌≢◌, none, arith, string_eq, nat_eq}
use raftra.GoMap.{GoMap}
use raftra.Raft.Kept.{IsKept}
use raftra.Raft.Node.{RaftNode, PeerConfig}
use raftra.Raft.Send.{
  send_append_entries_to_peer_locked, send_to_all, broadcast_append_entries_locked,
}
use raftra.Storage.{StorageBackend}

-- The fields that sending leaves alone, beside those of `IsKept`.
pub record IsSent {S : Type 0} (rn rn' : RaftNode S) : Type 0 where
  pub kept : IsKept rn rn'
  pub volatile : rn'.volatile ≡ rn.volatile
  pub kv_store : rn'.kv_store ≡ rn.kv_store
  pub pending_commits : rn'.pending_commits ≡ rn.pending_commits
  pub sent : rn'.sent ≡ rn.sent
  pub has_leader_state : rn.leader_state ≢ none → rn'.leader_state ≢ none

module _ {S : Type 0} ⦃b : StorageBackend S⦄ where
  pub send-IsSent :
      (peer : String) (rn : RaftNode S) → IsSent rn (send_append_entries_to_peer_locked peer rn)
  unfolding send_append_entries_to_peer_locked
  send-IsSent peer rn = ground arith

  send_to_all-IsSent :
      (peers : GoMap String PeerConfig) (rn : RaftNode S) → IsSent rn (send_to_all peers rn)
  unfolding send_to_all
  send_to_all-IsSent [] rn = ground arith
  send_to_all-IsSent ((peer, p) ∷ rest) rn = ground (
    arith,
    send-IsSent peer rn,
    send_to_all-IsSent rest (send_append_entries_to_peer_locked peer rn),
  )

  pub broadcast-IsSent : (rn : RaftNode S) → IsSent rn (broadcast_append_entries_locked rn)
  unfolding broadcast_append_entries_locked
  broadcast-IsSent rn = ground (arith, send_to_all-IsSent rn.peers rn)
