-- ===== src/Raft/Propose/Waits.antt =====
-- `ProposeCommand` (internal/raft/replication.go) on a leader with peers: the client waits, and until
-- a commit the command shows in the log alone.
use raftra.Common.{◌+◌, String, ◌≡◌, ◌≢◌, ap, none, [], ◌∷◌, arith, string_eq, nat_eq, u64, length}
use raftra.Raft.Run
use raftra.Kvstore
use raftra.Kvstore.{Codec, Bytes}
use raftra.Proto.{LogEntry}
use raftra.Raft.Node.{RaftNode, leader, role_eq}
use raftra.Raft.Propose.{propose_command, waiting}
use raftra.Raft.Send.Frame.{broadcast-IsSent}
use raftra.Storage.{StorageBackend}

-- The entry that ProposeCommand appends.
abbrev pub proposed : {S : Type 0} ⦃b : StorageBackend S⦄ → Bytes → RaftNode S → LogEntry
proposed ⦃b⦄ cmd rn = record {
  index = u64 ((b.last_index rn.storage).0 + 1);
  term = rn.persistent.current_term;
  command = cmd;
}

-- A client that waits, at a leader whose key-value store is the one before.
pub record IsWaiting {S : Type 0} ⦃b : StorageBackend S⦄ ⦃codec : Codec⦄ (cmd : Bytes)
    (rn : RaftNode S) : Type 0 where
  pub waits :
      (propose_command cmd rn).1 ≡ waiting (u64 ((b.last_index rn.storage).0 + 1)) rn.next_channel
  pub role : (propose_command cmd rn).0.role ≡ leader
  pub peers : (propose_command cmd rn).0.peers ≡ rn.peers
  pub kv_store : (propose_command cmd rn).0.kv_store ≡ rn.kv_store
  pub storage :
      (propose_command cmd rn).0.storage ≡ (b.append_entries (proposed cmd rn ∷ []) rn.storage).0

module _ {S : Type 0} ⦃b : StorageBackend S⦄ ⦃codec : Codec⦄ where
  pub propose-IsWaiting :
      (cmd : Bytes) (rn : RaftNode S)
      → rn.role ≡ leader
      → length rn.peers ≢ 0
      → (b.append_entries (proposed cmd rn ∷ []) rn.storage).1 ≡ none
      → IsWaiting cmd rn
  unfolding propose_command
  propose-IsWaiting cmd rn lead many ok = grind (arith, broadcast-IsSent)

  pub get-IsWaiting :
      (key : String) (cmd : Bytes) (rn : RaftNode S)
      → IsWaiting cmd rn
      → Run.get key (propose_command cmd rn).0 ≡ Run.get key rn
  unfolding Run.get
  get-IsWaiting key cmd rn w = ap (λ kv. Kvstore.get kv key) w.kv_store
