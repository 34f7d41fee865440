-- ===== src/Raft/Commit/Frame.antt =====
-- What `checkAndUpdateCommitIndexLocked` of internal/raft/replication.go leaves alone.
use raftra.Common.{ℕ, zero, suc, ◌+◌, ◌-◌, ◌≡◌, refl, Option, none, some, arith, u64}
use raftra.Kvstore.{Codec}
use raftra.Raft.Apply.Frame.{apply_committed-IsApplied}
use raftra.Raft.Apply.{apply_committed_entries_locked}
use raftra.Raft.Commit.{consider, commit_loop, advance_commit, check_and_update_commit_index_locked}
use raftra.Raft.Kept.{IsKept}
use raftra.Raft.Node.{RaftNode, LeaderState}
use raftra.Storage.{StorageBackend}

-- The fields that advancing the commit index leaves alone, beside those of `IsKept`.
pub record IsCommitted {S : Type 0} (rn rn' : RaftNode S) : Type 0 where
  pub kept : IsKept rn rn'
  pub leader_state : rn'.leader_state ≡ rn.leader_state
  pub spawned : rn'.spawned ≡ rn.spawned

module _ {S : Type 0} ⦃b : StorageBackend S⦄ where
  pub consider-IsCommitted :
      (ls : LeaderState) (n : ℕ) (rn : RaftNode S) → IsCommitted rn (consider ls n rn)
  unfolding consider
  consider-IsCommitted ls n rn = ground arith

  commit_loop-IsCommitted :
      (fuel : ℕ) (ls : LeaderState) (last n : ℕ) (rn : RaftNode S)
      → IsCommitted rn (commit_loop fuel ls last n rn)
  unfolding commit_loop
  commit_loop-IsCommitted zero ls last n rn = ground arith
  commit_loop-IsCommitted (suc fuel) ls last n rn = ground (
    arith,
    consider-IsCommitted ls n rn,
    commit_loop-IsCommitted fuel ls last (u64 (n + 1)) (consider ls n rn),
  )

  advance_commit-IsCommitted :
      (ls : LeaderState) (rn : RaftNode S) → IsCommitted rn (advance_commit ls rn)
  unfolding advance_commit
  advance_commit-IsCommitted ls rn =
      let last = (b.last_index rn.storage).0 in
      let first = u64 (rn.volatile.commit_index + 1) in
      commit_loop-IsCommitted (last + 1 - first) ls last first rn

module _ {S : Type 0} ⦃b : StorageBackend S⦄ ⦃codec : Codec⦄ where
  advance_and_apply-IsCommitted :
      (ls : LeaderState) (rn : RaftNode S)
      → IsCommitted rn (apply_committed_entries_locked (advance_commit ls rn))
  advance_and_apply-IsCommitted ls rn =
      ground
        (arith, advance_commit-IsCommitted ls rn, apply_committed-IsApplied (advance_commit ls rn))

  pub check_and_update-IsCommitted :
      (rn : RaftNode S) → IsCommitted rn (check_and_update_commit_index_locked rn)
  unfolding check_and_update_commit_index_locked
  check_and_update-IsCommitted rn = go rn.leader_state refl
    where
      go :
          (o : Option LeaderState)
          → rn.leader_state ≡ o
          → IsCommitted rn (check_and_update_commit_index_locked rn)
      go none e = ground arith
      go (some ls) e = ground (arith, advance_and_apply-IsCommitted ls rn)
