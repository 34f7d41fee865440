-- ===== src/Raft/Run.antt =====
-- The event loop of internal/raft/raft.go and the methods that read a node.
use raftra.Common.{ℕ, String, Bool, true, Option, ◌==◌, if◌then◌else◌, nat_eq}
use raftra.Kvstore
use raftra.Kvstore.{Codec}
use raftra.Metrics.{
  Metrics, set_current_term, set_node_role, set_commit_index, set_last_applied,
  set_log_entries_total,
}
use raftra.Raft.Election.{start_election}
use raftra.Raft.Node.{RaftNode, NodeRole, follower, candidate, leader, role_eq, Timer, nil, idle}
use raftra.Raft.Send.{send_heartbeats}
use raftra.Raft.Timer.{Env, reset_election_timer, reset_heartbeat_timer}
use raftra.Storage.{StorageBackend}

abbrev pub role_number : NodeRole → ℕ
role_number follower = 0
role_number candidate = 1
role_number leader = 2

module _ {S : Type 0} ⦃b : StorageBackend S⦄ ⦃codec : Codec⦄ where
  -- `case <-rn.electionTimer.C`
  unfoldable pub on_election_timer : Env → RaftNode S → RaftNode S
  on_election_timer env rn =
      if rn.role == leader then reset_election_timer env rn else start_election env rn

  -- `case <-rn.heartbeatTimer.C`
  unfoldable pub on_heartbeat_timer : Env → RaftNode S → RaftNode S
  on_heartbeat_timer env rn =
      reset_heartbeat_timer env (if rn.role == leader then send_heartbeats rn else rn)

  unfoldable pub set_metrics : Option Metrics → RaftNode S → RaftNode S
  set_metrics m rn = record rn {
    metrics = set_log_entries_total (b.last_index rn.storage).0 (
        set_last_applied rn.volatile.last_applied (
          set_commit_index rn.volatile.commit_index
            (set_node_role (role_number rn.role) (set_current_term rn.persistent.current_term m))));
  }

-- if timer != nil { timer.Stop() }
halted : Timer → Timer
halted nil = nil
halted _ = idle

module _ {S : Type 0} where
  -- The second call finds `stopCh` closed.
  unfoldable pub stop : RaftNode S → RaftNode S
  unfolding halted
  stop rn = if rn.stopped then rn else record rn {
    stopped = true;
    election_timer = halted rn.election_timer;
    heartbeat_timer = halted rn.heartbeat_timer;
  }

  unfoldable pub is_leader : RaftNode S → Bool
  is_leader rn = rn.role == leader

  unfoldable pub leader_id : RaftNode S → String
  leader_id rn = if rn.role == leader then rn.config.node_id else rn.leader_id

  unfoldable pub get : String → RaftNode S → Option String
  get key rn = Kvstore.get rn.kv_store key

  unfoldable pub kv_store_size : RaftNode S → ℕ
  kv_store_size rn = Kvstore.size rn.kv_store
