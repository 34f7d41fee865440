-- ===== src/Raft/Term/Aborts.antt =====
-- The clients that wait when a node steps down (`checkTerm` of internal/raft/election.go).
use raftra.Common.{
  length-append, ℕ, suc, ◌+◌, ◌<◌, ◌≡◌, refl, sym, ap, ◌∙◌, inl, inr, none, some, [], ◌∷◌, ◌++◌,
  arith, ◌==◌, string_eq, nat_eq, length, Bool-cases,
}
use mathlib.Core.Path.{subst}
use mathlib.Core.List.{Mem, mem-cons_of_mem, mem-cons_self, mem-append_right}
use raftra.GoMap
use raftra.GoMap.{GoMap}
use raftra.Raft.Node.{RaftNode, Channel}
use raftra.Raft.Term.{abort_sends, abort_deletes, check_term}
use raftra.Storage.{StorageBackend, not_leader}

-- Ranging over a map and deleting each key empties it.
lookup-abort_deletes :
    (m pending : GoMap ℕ Channel) (k : ℕ)
    → GoMap.lookup (abort_deletes m pending) k
      ≡ (elim (GoMap.lookup m k) [ none ↦ GoMap.lookup pending k | some _ ↦ none ])
unfolding abort_deletes GoMap.lookup
lookup-abort_deletes [] pending k = refl
lookup-abort_deletes ((i, ch) ∷ m) pending k = ground (
  arith,
  nat_eq.equal_iff i k,
  lookup-abort_deletes m (GoMap.delete pending i) k,
  GoMap.lookup-delete pending i k,
)

lookup-abort_all : (m : GoMap ℕ Channel) (k : ℕ) → GoMap.lookup (abort_deletes m m) k ≡ none
lookup-abort_all m k = ground (arith, lookup-abort_deletes m m k)

empty_of_lookups : (m : GoMap ℕ Channel) → ((k : ℕ) → GoMap.lookup m k ≡ none) → m ≡ []
empty_of_lookups [] h = refl
empty_of_lookups ((i, ch) ∷ m) h = absurd (ground (arith, h i, GoMap.lookup-here m i i ch refl))

abort_deletes-all : (m : GoMap ℕ Channel) → abort_deletes m m ≡ []
abort_deletes-all m = empty_of_lookups (abort_deletes m m) (lookup-abort_all m)

length-abort_sends : (m : GoMap ℕ Channel) → length (abort_sends m) ≡ length m
unfolding abort_sends
length-abort_sends [] = refl
length-abort_sends (p ∷ m) = ap suc (length-abort_sends m)

Mem-abort_sends :
    (m : GoMap ℕ Channel) (idx : ℕ) (ch : Channel)
    → GoMap.lookup m idx ≡ some ch
    → Mem (ch, some not_leader) (abort_sends m)
unfolding abort_sends GoMap.lookup
Mem-abort_sends [] idx ch h = absurd (ground (arith, h))
Mem-abort_sends ((i, c) ∷ m) idx ch h = elim (Bool-cases (i == idx)) [
  | inl e ↦
      let same : c ≡ ch = ground (arith, e, h) in
      subst (λ x. Mem (x, some not_leader) ((c, some not_leader) ∷ abort_sends m)) same
        mem-cons_self
  | inr e ↦
      let rest : GoMap.lookup m idx ≡ some ch = ground (arith, e, h) in
      mem-cons_of_mem (c, some not_leader) (Mem-abort_sends m idx ch rest)
]

module _ {S : Type 0} ⦃b : StorageBackend S⦄ where
  newer-term :
      (t : ℕ) (rn : RaftNode S)
      → rn.persistent.current_term < t
      → ((check_term t rn).0.sent ≡ rn.sent ++ abort_sends rn.pending_commits)
        × ((check_term t rn).0.pending_commits
            ≡ abort_deletes rn.pending_commits rn.pending_commits)
  unfolding check_term
  newer-term t rn h = ground (arith, h)

  -- At a newer term every client that waits is told that the node is not the leader, with one message
  -- for each of them, and none is left waiting.
  pub check_term-aborts :
      (t : ℕ) (rn : RaftNode S)
      → rn.persistent.current_term < t
      → ((idx : ℕ) (ch : Channel)
          → GoMap.lookup rn.pending_commits idx ≡ some ch
          → Mem (ch, some not_leader) (check_term t rn).0.sent)
        × (length (check_term t rn).0.sent ≡ length rn.sent + length rn.pending_commits)
        × ((check_term t rn).0.pending_commits ≡ [])
  check_term-aborts t rn h =
      let newer = newer-term t rn h in
      (
        λ idx ch w.
            subst (Mem (ch, some not_leader)) (sym newer.0)
              (mem-append_right rn.sent (Mem-abort_sends rn.pending_commits idx ch w)),
        ap length newer.0
            ∙ length-append rn.sent (abort_sends rn.pending_commits)
            ∙ ap (λ n. length rn.sent + n) (length-abort_sends rn.pending_commits),
        newer.1 ∙ abort_deletes-all rn.pending_commits,
      )
