-- ===== src/Raft/Commit/Proceeds.antt =====
-- The commit index of a leader (internal/raft/replication.go, `checkAndUpdateCommitIndexLocked`) never
-- falls, while the indices fit uint64.
use raftra.Common.{
  ℕ, zero, suc, ◌+◌, ◌≤◌, ◌<◌, ◌^◌, ◌≡◌, ◌⊎◌, inl, inr, false, none, some, arith, ◌==◌, string_eq,
  nat_eq, u64, u64-eq_of_lt, leb, Bool-cases, Option-cases,
}
use raftra.Kvstore.{Codec}
use raftra.Raft.Apply.Proceeds.{apply_committed-Proceeds}
use raftra.Raft.Apply.{apply_committed_entries_locked}
use raftra.Raft.Commit.{consider, commit_loop, advance_commit, check_and_update_commit_index_locked}
use raftra.Raft.Node.{RaftNode, LeaderState, leader, role_eq}
use raftra.Raft.Proceeds.{Proceeds, Proceeds-refl, Proceeds-trans}
use raftra.Storage.{StorageBackend}

-- The commit index and the last index of the log have a successor in uint64.
abbrev pub HasRoom : {S : Type 0} ⦃b : StorageBackend S⦄ → RaftNode S → Type 0
HasRoom ⦃b⦄ rn =
    (rn.volatile.commit_index + 1 < 2 ^ 64) × ((b.last_index rn.storage).0 + 1 < 2 ^ 64)

module _ {S : Type 0} ⦃b : StorageBackend S⦄ where
  consider-Proceeds :
      (ls : LeaderState) (n : ℕ) (rn : RaftNode S)
      → rn.volatile.commit_index ≤ n
      → Proceeds rn (consider ls n rn) × ((consider ls n rn).volatile.commit_index ≤ n)
  unfolding consider
  consider-Proceeds ls n rn le = ground arith

  commit_loop-Proceeds :
      (fuel : ℕ) (ls : LeaderState) (last n : ℕ) (rn : RaftNode S)
      → last + 1 < 2 ^ 64
      → rn.volatile.commit_index ≤ n
      → Proceeds rn (commit_loop fuel ls last n rn)
  unfolding commit_loop
  commit_loop-Proceeds zero ls last n rn small le = Proceeds-refl rn
  commit_loop-Proceeds (suc fuel) ls last n rn small le = elim (Bool-cases (leb n last)) [
    | inl more ↦ rw more (
        let step = consider-Proceeds ls n rn le in
        let next : u64 (n + 1) ≡ n + 1 = u64-eq_of_lt (n + 1) (ground (arith, more)) in
        Proceeds-trans step.0 (
          rw next (
            commit_loop-Proceeds fuel ls last (n + 1) (consider ls n rn) small
              (omega (arith, step.1)))))
    | inr done ↦ rw done (Proceeds-refl rn)
  ]

  advance_commit-Proceeds :
      (ls : LeaderState) (rn : RaftNode S) → HasRoom rn → Proceeds rn (advance_commit ls rn)
  unfolding advance_commit
  advance_commit-Proceeds ls rn h =
      commit_loop-Proceeds _ ls _ _ rn h.1
        (omega (arith, u64-eq_of_lt (rn.volatile.commit_index + 1) h.0))

module _ {S : Type 0} ⦃b : StorageBackend S⦄ ⦃codec : Codec⦄ where
  check_and_update_as_leader :
      (ls : LeaderState) (rn : RaftNode S)
      → rn.role ≡ leader
      → rn.leader_state ≡ some ls
      → check_and_update_commit_index_locked rn
        ≡ apply_committed_entries_locked (advance_commit ls rn)
  unfolding check_and_update_commit_index_locked
  check_and_update_as_leader ls rn leads has = ground (arith, leads, has)

  check_and_update_idle :
      (rn : RaftNode S)
      → (rn.role == leader ≡ false) ⊎ (rn.leader_state ≡ none)
      → check_and_update_commit_index_locked rn ≡ rn
  unfolding check_and_update_commit_index_locked
  check_and_update_idle rn h = ground (arith, h)

  pub check_and_update-Proceeds :
      (rn : RaftNode S) → HasRoom rn → Proceeds rn (check_and_update_commit_index_locked rn)
  check_and_update-Proceeds rn h = elim (Bool-cases (rn.role == leader)) [
    | inr other ↦ rw (check_and_update_idle rn (inl other)) (Proceeds-refl rn)
    | inl leads ↦ elim (Option-cases rn.leader_state) [
      | inl absent ↦ rw (check_and_update_idle rn (inr absent)) (Proceeds-refl rn)
      | inr (ls, e) ↦
          rw (check_and_update_as_leader ls rn ((role_eq.equal_iff rn.role leader).0 leads) e)
            (Proceeds-trans (advance_commit-Proceeds ls rn h) (apply_committed-Proceeds _))
    ]
  ]
