-- ===== src/Raft/Append/Tenure.antt =====
-- Serving AppendEntries (internal/raft/election.go): a candidate of the sender's term steps down, and so
-- does any node of an earlier term; a request of an earlier term changes nothing.
use raftra.Common.{ℕ, ◌≤◌, ◌<◌, ◌≡◌, ◌∙◌, ◌⊎◌, inl, inr, arith, string_eq, nat_eq, ltb, Bool-cases}
use raftra.Kvstore.{Codec}
use raftra.Proto.{AppendEntriesRequest}
use raftra.Raft.Append.{follow, accept, follow_commit, handle_append_entries}
use raftra.Raft.Apply.Frame.{apply_committed-IsApplied}
use raftra.Raft.Node.{RaftNode, leader, follower, role_eq}
use raftra.Raft.Term.{check_term}
use raftra.Raft.Timer.{Env, reset_election_timer}
use raftra.Raft.Tenure.{Tenure, Tenure-refl}
use raftra.Storage.{StorageBackend}

-- A leader that gets an AppendEntries request of its own term, as from a second leader of the term.
abbrev pub Disturbs : {S : Type 0} → AppendEntriesRequest → RaftNode S → Type 0
Disturbs req rn = (rn.role ≡ leader) × (req.term ≡ rn.persistent.current_term)

module _ {S : Type 0} ⦃b : StorageBackend S⦄ ⦃codec : Codec⦄ where
  follow_commit-role :
      (commit last : ℕ) (rn : RaftNode S)
      → ((follow_commit commit last rn).role ≡ rn.role)
        × ((follow_commit commit last rn).persistent ≡ rn.persistent)
  unfolding follow_commit
  follow_commit-role commit last rn = grind (arith, apply_committed-IsApplied)

  accept-role :
      (req : AppendEntriesRequest) (rn : RaftNode S)
      → ((accept req rn).0.role ≡ rn.role)
        × ((accept req rn).0.persistent.current_term ≡ rn.persistent.current_term)
  unfolding accept
  accept-role req rn = grind (arith, follow_commit-role)

  follow-role :
      (env : Env) (req : AppendEntriesRequest) (rn : RaftNode S)
      → rn.persistent.current_term ≤ req.term
      → (rn.persistent.current_term < (follow env req rn).persistent.current_term)
        ⊎ ((follow env req rn).persistent.current_term ≡ rn.persistent.current_term)
          × (((follow env req rn).role ≡ follower) ⊎ Disturbs req rn)
  unfolding follow reset_election_timer check_term
  follow-role env req rn h = ground arith

  pub handle_append_entries-Tenure :
      (env : Env) (req : AppendEntriesRequest) (rn : RaftNode S)
      → ¬ Disturbs req rn
      → Tenure rn (handle_append_entries env req rn).0
  unfolding handle_append_entries
  handle_append_entries-Tenure env req rn quiet =
      let rn' = follow env req rn in
      let (role, term) = accept-role req rn' in
      elim (Bool-cases (ltb req.term rn.persistent.current_term)) [
        | inl old ↦ rw old (Tenure-refl rn)
        | inr new ↦ rw new (elim (follow-role env req rn (ground (arith, new))) [
          | inl later ↦ inl (omega (arith, later, term))
          | inr (same, inl fell) ↦ inr (term ∙ same, λ office. absurd (office (role ∙ fell)))
          | inr (same, inr disturbed) ↦ absurd (quiet disturbed)
        ])
      ]
