-- ===== src/Raft/Send/Office.antt =====
-- Sending AppendEntries RPCs (internal/raft/replication.go) opens no round of votes.
use raftra.Common.{String, ◌≡◌, ◌∙◌, [], ◌∷◌, ◌++◌, arith, string_eq, nat_eq}
use mathlib.Core.List.{append-nil}
use raftra.GoMap.{GoMap}
use raftra.Kvstore.{Codec}
use raftra.Proto.{AppendEntriesRequest}
use raftra.Raft.Node.{RaftNode, PeerConfig, append, role_eq}
use raftra.Raft.Office.{polls, polls-append, Stays, Stays-refl, Stays-trans, Stays-kept}
use raftra.Raft.Run.{on_heartbeat_timer}
use raftra.Raft.Send.Frame.{send-IsSent}
use raftra.Raft.Send.{
  send_append_entries_to_peer_locked, send_to_all, broadcast_append_entries_locked,
}
use raftra.Raft.Timer.{Env}
use raftra.Raft.Office.Serves.{reset_heartbeat_timer-Stays}
use raftra.Storage.{StorageBackend}

module _ {S : Type 0} ⦃b : StorageBackend S⦄ where
  polls-append_call :
      (peer : String) (r : AppendEntriesRequest) (rn : RaftNode S)
      → polls (rn.spawned ++ append peer r ∷ []) ≡ polls rn.spawned
  unfolding polls
  polls-append_call peer r rn = polls-append rn.spawned _ ∙ append-nil _

  polls-send :
      (peer : String) (rn : RaftNode S)
      → polls (send_append_entries_to_peer_locked peer rn).spawned ≡ polls rn.spawned
  unfolding send_append_entries_to_peer_locked
  polls-send peer rn = grind (arith, polls-append_call)

  pub send-Stays :
      (peer : String) (rn : RaftNode S) → Stays rn (send_append_entries_to_peer_locked peer rn)
  send-Stays peer rn = Stays-kept (send-IsSent peer rn).kept (polls-send peer rn)

  send_to_all-Stays :
      (peers : GoMap String PeerConfig) (rn : RaftNode S) → Stays rn (send_to_all peers rn)
  unfolding send_to_all
  send_to_all-Stays [] rn = Stays-refl rn
  send_to_all-Stays ((peer, p) ∷ rest) rn =
      Stays-trans (send-Stays peer rn) (send_to_all-Stays rest _)

  pub broadcast-Stays : (rn : RaftNode S) → Stays rn (broadcast_append_entries_locked rn)
  unfolding broadcast_append_entries_locked
  broadcast-Stays rn = ground (arith, send_to_all-Stays rn.peers rn, Stays-refl rn)

module _ {S : Type 0} ⦃b : StorageBackend S⦄ ⦃codec : Codec⦄ where
  pub on_heartbeat_timer-Stays :
      (env : Env) (rn : RaftNode S) → Stays rn (on_heartbeat_timer env rn)
  unfolding on_heartbeat_timer
  on_heartbeat_timer-Stays env rn = grind (arith, broadcast-Stays, reset_heartbeat_timer-Stays)
