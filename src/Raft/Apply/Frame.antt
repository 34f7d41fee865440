-- ===== src/Raft/Apply/Frame.antt =====
-- What `applyCommittedEntriesLocked` of internal/raft/replication.go leaves alone.
use raftra.Common.{ℕ, zero, suc, ◌≡◌, arith}
use raftra.Kvstore.{Codec}
use raftra.Raft.Apply.{apply_next, apply_loop, apply_committed_entries_locked}
use raftra.Raft.Kept.{IsKept}
use raftra.Raft.Node.{RaftNode}
use raftra.Storage.{StorageBackend}

-- The fields that applying leaves alone, beside those of `IsKept`.
pub record IsApplied {S : Type 0} (rn rn' : RaftNode S) : Type 0 where
  pub kept : IsKept rn rn'
  pub commit_index : rn'.volatile.commit_index ≡ rn.volatile.commit_index
  pub leader_state : rn'.leader_state ≡ rn.leader_state
  pub spawned : rn'.spawned ≡ rn.spawned

module _ {S : Type 0} ⦃b : StorageBackend S⦄ ⦃codec : Codec⦄ where
  pub apply_next-IsApplied : (rn : RaftNode S) → IsApplied rn (apply_next rn)
  unfolding apply_next
  apply_next-IsApplied rn = ground arith

  pub apply_loop-IsApplied : (fuel : ℕ) (rn : RaftNode S) → IsApplied rn (apply_loop fuel rn)
  unfolding apply_loop
  apply_loop-IsApplied zero rn = ground arith
  apply_loop-IsApplied (suc fuel) rn =
      ground (arith, apply_next-IsApplied rn, apply_loop-IsApplied fuel (apply_next rn))

  pub apply_committed-IsApplied :
      (rn : RaftNode S) → IsApplied rn (apply_committed_entries_locked rn)
  unfolding apply_committed_entries_locked
  apply_committed-IsApplied rn = apply_loop-IsApplied _ rn
