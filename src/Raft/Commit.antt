-- ===== src/Raft/Commit.antt =====
-- `checkAndUpdateCommitIndexLocked` of internal/raft/replication.go.
pub mod Proceeds
pub mod Frame
pub mod Rule
use raftra.Common.{
  ℕ, zero, suc, ◌+◌, ◌-◌, ◌/◌, String, none, some, [], ◌∷◌, leb, ◌==◌, if◌then◌else◌, nat_eq,
  length, u64,
}
use raftra.GoMap.{GoMap}
use raftra.Kvstore.{Codec}
use raftra.Metrics.{set_commit_index}
use raftra.Raft.Apply.{apply_committed_entries_locked}
use raftra.Raft.Node.{RaftNode, LeaderState, leader, role_eq}
use raftra.Storage.{StorageBackend, checked}

-- How many peers are known to hold the entry at `n`.
unfoldable pub count_matches : ℕ → GoMap String ℕ → ℕ
count_matches n [] = 0
count_matches n ((peer, match_idx) ∷ m) = (if leb n match_idx then 1 else 0) + count_matches n m

module _ {S : Type 0} where
  unfoldable pub majority : RaftNode S → ℕ
  majority rn = (length rn.peers + 1) / 2 + 1

  set_commit : ℕ → RaftNode S → RaftNode S
  set_commit n rn = record rn {
    volatile = record rn.volatile { commit_index = n };
    metrics = set_commit_index n rn.metrics;
  }

module _ {S : Type 0} ⦃b : StorageBackend S⦄ where
  -- The body of the loop at index `n`.
  pub consider : LeaderState → ℕ → RaftNode S → RaftNode S
  unfolding majority set_commit
  consider ls n rn = elim (checked (b.get_entry n rn.storage)) [
    | none ↦ rn
    | some entry ↦
        if entry.term == rn.persistent.current_term
        then if leb (majority rn) (1 + count_matches n ls.match_index) then set_commit n rn else rn
        else rn
  ]

  -- for n := …; n <= lastLogIndex; n++; the first argument bounds the rounds.
  commit_loop : ℕ → LeaderState → ℕ → ℕ → RaftNode S → RaftNode S
  unfolding consider
  commit_loop zero ls last_log_index n rn = rn
  commit_loop (suc fuel) ls last_log_index n rn =
      let rest = commit_loop fuel ls last_log_index (u64 (n + 1)) (consider ls n rn) in
      if leb n last_log_index then rest else rn

  pub advance_commit : LeaderState → RaftNode S → RaftNode S
  unfolding commit_loop
  advance_commit ls rn =
      let last_log_index = (b.last_index rn.storage).0 in
      let first = u64 (rn.volatile.commit_index + 1) in
      commit_loop (last_log_index + 1 - first) ls last_log_index first rn

module _ {S : Type 0} ⦃b : StorageBackend S⦄ ⦃codec : Codec⦄ where
  unfoldable pub check_and_update_commit_index_locked : RaftNode S → RaftNode S
  unfolding advance_commit
  check_and_update_commit_index_locked rn =
      if rn.role == leader
      then elim rn.leader_state [
        | none ↦ rn
        | some ls ↦ apply_committed_entries_locked (advance_commit ls rn)
      ]
      else rn
