-- ===== src/Raft/Send/Proceeds.antt =====
-- Sending AppendEntries RPCs (internal/raft/replication.go) leaves the indices alone.
use raftra.Common.{String, sym, ◌∙◌, inl, inr, ◌==◌, string_eq, nat_eq, Bool-cases}
use raftra.Kvstore.{Codec}
use raftra.Raft.Node.{RaftNode, leader, role_eq}
use raftra.Raft.Proceeds.{Proceeds, Proceeds-same, Proceeds-trans, reset_heartbeat_timer-Proceeds}
use raftra.Raft.Run.{on_heartbeat_timer}
use raftra.Raft.Send.Frame.{IsSent, send-IsSent, broadcast-IsSent}
use raftra.Raft.Send.{send_append_entries_to_peer_locked, broadcast_append_entries_locked}
use raftra.Raft.Timer.{Env}
use raftra.Storage.{StorageBackend}

module _ {S : Type 0} ⦃b : StorageBackend S⦄ where
  IsSent-Proceeds : (rn rn' : RaftNode S) → IsSent rn rn' → Proceeds rn rn'
  IsSent-Proceeds rn rn' s =
      Proceeds-same rn rn' s.volatile (λ e l. s.has_leader_state (e (sym s.kept.role ∙ l)))

  pub send-Proceeds :
      (peer : String) (rn : RaftNode S) → Proceeds rn (send_append_entries_to_peer_locked peer rn)
  send-Proceeds peer rn = IsSent-Proceeds rn _ (send-IsSent peer rn)

  pub broadcast-Proceeds : (rn : RaftNode S) → Proceeds rn (broadcast_append_entries_locked rn)
  broadcast-Proceeds rn = IsSent-Proceeds rn _ (broadcast-IsSent rn)

module _ {S : Type 0} ⦃b : StorageBackend S⦄ ⦃codec : Codec⦄ where
  pub on_heartbeat_timer-Proceeds :
      (env : Env) (rn : RaftNode S) → Proceeds rn (on_heartbeat_timer env rn)
  unfolding on_heartbeat_timer
  on_heartbeat_timer-Proceeds env rn = elim (Bool-cases (rn.role == leader)) [
    | inl leads ↦
        rw leads (Proceeds-trans (broadcast-Proceeds rn) (reset_heartbeat_timer-Proceeds env _))
    | inr other ↦ rw other (reset_heartbeat_timer-Proceeds env rn)
  ]
