-- ===== src/Raft/Apply/Proceeds.antt =====
-- Applying entries (internal/raft/replication.go) only moves the index of the last applied entry up to
-- the commit index.
use raftra.Common.{
  ℕ, zero, suc, ◌+◌, ◌<◌, ◌≡◌, sym, ◌∙◌, inl, inr, arith, string_eq, nat_eq, ltb, Bool-cases,
}
use raftra.Kvstore.{Codec}
use raftra.Raft.Apply.Frame.{apply_next-IsApplied}
use raftra.Raft.Apply.{apply_next, apply_loop, apply_committed_entries_locked}
use raftra.Raft.Node.{RaftNode, role_eq}
use raftra.Raft.Proceeds.{Proceeds, Proceeds-refl, Proceeds-trans}
use raftra.Storage.{StorageBackend}

module _ {S : Type 0} ⦃b : StorageBackend S⦄ ⦃codec : Codec⦄ where
  last_applied-apply_next :
      (rn : RaftNode S) → (apply_next rn).volatile.last_applied ≡ rn.volatile.last_applied + 1
  unfolding apply_next
  last_applied-apply_next rn = ground arith

  apply_next-Proceeds :
      (rn : RaftNode S)
      → rn.volatile.last_applied < rn.volatile.commit_index
      → Proceeds rn (apply_next rn)
  apply_next-Proceeds rn lt =
      let a = apply_next-IsApplied rn in
      record {
        commit = omega (arith, a.commit_index);
        applied = omega (arith, last_applied-apply_next rn);
        ordered = λ o. omega (arith, a.commit_index, last_applied-apply_next rn);
        equipped = λ e l. rw a.leader_state (e (sym a.kept.role ∙ l));
      }

  apply_loop-Proceeds : (fuel : ℕ) (rn : RaftNode S) → Proceeds rn (apply_loop fuel rn)
  unfolding apply_loop
  apply_loop-Proceeds zero rn = Proceeds-refl rn
  apply_loop-Proceeds (suc fuel) rn =
      elim (Bool-cases (ltb rn.volatile.last_applied rn.volatile.commit_index)) [
        | inl more ↦ rw more (
            Proceeds-trans (apply_next-Proceeds rn (ground (arith, more)))
              (apply_loop-Proceeds fuel (apply_next rn)))
        | inr done ↦ rw done (Proceeds-refl rn)
      ]

  pub apply_committed-Proceeds : (rn : RaftNode S) → Proceeds rn (apply_committed_entries_locked rn)
  unfolding apply_committed_entries_locked
  apply_committed-Proceeds rn = apply_loop-Proceeds _ rn
