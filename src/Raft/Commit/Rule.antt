-- ===== src/Raft/Commit/Rule.antt =====
-- The commit rule of a leader (internal/raft/replication.go, `checkAndUpdateCommitIndexLocked`).
use raftra.Common.{
  ℕ, zero, suc, ◌+◌, ◌-◌, ◌≤◌, ◌<◌, ◌^◌, ◌≡◌, refl, sym, ap, ◌∙◌, ◌⊎◌, inl, inr, true, Option, none,
  some, arith, ◌==◌, string_eq, nat_eq, u64, u64-eq_of_lt, leb, length, get_elem?, Bool-cases,
}
use native.Mathlib.Decide.{dec_lt}
use raftra.Kvstore.{Codec}
use raftra.Proto.{LogEntry}
use raftra.Raft.Apply.Frame.{apply_committed-IsApplied}
use raftra.Raft.Apply.{apply_committed_entries_locked}
use raftra.Raft.Commit.Frame.{consider-IsCommitted}
use raftra.Raft.Commit.{
  count_matches, majority, consider, commit_loop, advance_commit,
  check_and_update_commit_index_locked,
}
use raftra.Raft.Kept.{IsKept, IsKept-symm}
use raftra.Raft.Node.{RaftNode, LeaderState, leader}
use raftra.Storage.{StorageBackend, IsLawful, checked}

module _ {S : Type 0} ⦃b : StorageBackend S⦄ (law : IsLawful b) where
  open law use {log}

  -- The rule of Raft §5.3 and §5.4.2: an entry of the leader's own term, on a majority of the nodes
  -- (the leader counts as one).
  abbrev pub Committable : LeaderState → RaftNode S → ℕ → Type 0
  Committable ls rn n =
      (e : LogEntry) × (get_elem? (log rn.storage) n ≡ some e)
      × (e.term ≡ rn.persistent.current_term)
      × (majority rn ≤ 1 + count_matches n ls.match_index)

  -- A round sets the commit index to `n` exactly if `n` may be committed.
  consider-cases :
      (ls : LeaderState) (n : ℕ) (rn : RaftNode S)
      → n < 2 ^ 64
      → (Committable ls rn n × ((consider ls n rn).volatile.commit_index ≡ n))
        ⊎ (¬ Committable ls rn n
            × ((consider ls n rn).volatile.commit_index ≡ rn.volatile.commit_index))
  unfolding consider
  consider-cases ls n rn small = go (get_elem? (log rn.storage) n) refl
    where
      at_n : checked (b.get_entry n rn.storage) ≡ get_elem? (log rn.storage) n
      at_n = law.get_entry_lem rn.storage n small

      go :
          (o : Option LogEntry)
          → get_elem? (log rn.storage) n ≡ o
          → (Committable ls rn n × ((consider ls n rn).volatile.commit_index ≡ n))
            ⊎ (¬ Committable ls rn n
                × ((consider ls n rn).volatile.commit_index ≡ rn.volatile.commit_index))
      go none h = inr (λ c. cc (h, c.1), rw (at_n ∙ h, consider))
      go (some e) h = elim (Bool-cases (e.term == rn.persistent.current_term)) [
        | inr other ↦ inr (λ c. ground (arith, h, c.1), rw (at_n ∙ h, consider) (rw other))
        | inl own ↦ elim (Bool-cases (leb (majority rn) (1 + count_matches n ls.match_index))) [
          | inr few ↦
              inr (λ c. absurd (ground (arith, c.3)), rw (at_n ∙ h, consider) (rw own (rw few)))
          | inl enough ↦
              inl ((e, h, ground arith, ground arith), rw (at_n ∙ h, consider) (rw own (rw enough)))
        ]
      ]

  Committable-kept :
      (ls : LeaderState) (n : ℕ) (rn rn' : RaftNode S)
      → IsKept rn rn'
      → Committable ls rn n
      → Committable ls rn' n
  unfolding majority
  Committable-kept ls n rn rn' k (e, h, t, q) =
      (e, rw k.storage h, t ∙ ap (λ p. p.current_term) (sym k.persistent), rw k.peers q)

  -- `c` is what the search over the indices from `n` to `last` makes of the commit index `c0`: it
  -- stays or comes to an index that may be committed, and no index above it may be.
  abbrev pub IsCommitFrom : LeaderState → RaftNode S → ℕ → ℕ → ℕ → ℕ → Type 0
  IsCommitFrom ls rn n last c0 c =
      ((c ≡ c0) ⊎ ((n ≤ c) × (c ≤ last) × Committable ls rn c))
      × ((m : ℕ) → c < m → n ≤ m → m ≤ last → ¬ Committable ls rn m)

  commit_step :
      (ls : LeaderState) (rn : RaftNode S) (n last c : ℕ)
      → n ≤ last
      → n < 2 ^ 64
      → rn.volatile.commit_index < n
      → IsCommitFrom ls (consider ls n rn) (suc n) last (consider ls n rn).volatile.commit_index c
      → IsCommitFrom ls rn n last rn.volatile.commit_index c
  commit_step ls rn n last c le small lt (moved, none_above) = elim (consider-cases ls n rn small) [
    | inl (may, at) ↦ (found may at moved, λ m p q r ok. above m p r (ground (arith, at, moved)) ok)
    | inr (not_n, at) ↦ (
      kept at moved,
      λ m p q r ok. elim (dec_lt n m) [
        | yes over ↦ above m p r over ok
        | no same ↦ let e : n ≡ m = omega arith in not_n (rw e ok)
      ],
    )
  ]
    where
      k : IsKept rn (consider ls n rn)
      k = (consider-IsCommitted ls n rn).kept

      above : (m : ℕ) → c < m → m ≤ last → n < m → ¬ Committable ls rn m
      above m p r over ok = none_above m p over r (Committable-kept ls m rn (consider ls n rn) k ok)

      found :
          Committable ls rn n
          → (consider ls n rn).volatile.commit_index ≡ n
          → (c ≡ (consider ls n rn).volatile.commit_index)
            ⊎ ((suc n ≤ c) × (c ≤ last) × Committable ls (consider ls n rn) c)
          → (c ≡ rn.volatile.commit_index) ⊎ ((n ≤ c) × (c ≤ last) × Committable ls rn c)
      found may at (inl e) = let e' : c ≡ n = e ∙ at in inr (omega arith, omega arith, rw e' may)
      found may at (inr (p, q, ok)) =
          inr (omega arith, q, Committable-kept ls c (consider ls n rn) rn (IsKept-symm k) ok)

      kept :
          (consider ls n rn).volatile.commit_index ≡ rn.volatile.commit_index
          → (c ≡ (consider ls n rn).volatile.commit_index)
            ⊎ ((suc n ≤ c) × (c ≤ last) × Committable ls (consider ls n rn) c)
          → (c ≡ rn.volatile.commit_index) ⊎ ((n ≤ c) × (c ≤ last) × Committable ls rn c)
      kept at (inl e) = inl (e ∙ at)
      kept at (inr (p, q, ok)) =
          inr (omega arith, q, Committable-kept ls c (consider ls n rn) rn (IsKept-symm k) ok)

  commit_loop_lem :
      (fuel : ℕ) (ls : LeaderState) (last n : ℕ) (rn : RaftNode S)
      → n + fuel ≡ last + 1
      → last + 1 < 2 ^ 64
      → rn.volatile.commit_index < n
      → IsCommitFrom ls rn n last rn.volatile.commit_index
          (commit_loop fuel ls last n rn).volatile.commit_index
  unfolding commit_loop
  commit_loop_lem zero ls last n rn e small lt = (inl refl, λ m p q r. absurd (omega arith))
  commit_loop_lem (suc fuel) ls last n rn e small lt =
      let next : u64 (n + 1) ≡ suc n = u64-eq_of_lt (n + 1) (omega arith) ∙ omega arith in
      let le : leb n last ≡ true = ground arith in
      let up : (consider ls n rn).volatile.commit_index < suc n =
        ground (arith, consider-cases ls n rn (omega arith)) in
      let rest = commit_loop fuel ls last (suc n) (consider ls n rn) in
      rw le (
        rw next (
          commit_step ls rn n last rest.volatile.commit_index (omega arith) (omega arith) lt
            (commit_loop_lem fuel ls last (suc n) (consider ls n rn) (omega arith) small up)))

  advance_commit_lem :
      (ls : LeaderState) (rn : RaftNode S)
      → length (log rn.storage) < 2 ^ 64
      → rn.volatile.commit_index < length (log rn.storage)
      → IsCommitFrom ls rn
          (suc rn.volatile.commit_index)
          (length (log rn.storage) - 1)
          rn.volatile.commit_index
          (advance_commit ls rn).volatile.commit_index
  unfolding advance_commit
  advance_commit_lem ls rn small fits =
      let at_last = law.last_index_lem rn.storage (omega arith) small in
      let last : (b.last_index rn.storage).0 ≡ length (log rn.storage) - 1 =
        omega (arith, at_last) in
      let first : u64 (rn.volatile.commit_index + 1) ≡ suc rn.volatile.commit_index =
        u64-eq_of_lt _ (omega arith) ∙ omega arith in
      rw last (
        rw first (
          commit_loop_lem (length (log rn.storage) - 1 + 1 - suc rn.volatile.commit_index) ls
            (length (log rn.storage) - 1) (suc rn.volatile.commit_index) rn (omega arith)
            (omega arith) (omega arith)))

module _ {S : Type 0} ⦃b : StorageBackend S⦄ ⦃codec : Codec⦄ where
  check_and_update_as_leader :
      (ls : LeaderState) (rn : RaftNode S)
      → rn.role ≡ leader
      → rn.leader_state ≡ some ls
      → check_and_update_commit_index_locked rn
        ≡ apply_committed_entries_locked (advance_commit ls rn)
  unfolding check_and_update_commit_index_locked
  check_and_update_as_leader ls rn leads has = ground (arith, leads, has)

module _ {S : Type 0} ⦃b : StorageBackend S⦄ ⦃codec : Codec⦄ (law : IsLawful b) where
  pub commit_rule :
      (ls : LeaderState) (rn : RaftNode S)
      → rn.role ≡ leader
      → rn.leader_state ≡ some ls
      → length (law.log rn.storage) < 2 ^ 64
      → rn.volatile.commit_index < length (law.log rn.storage)
      → IsCommitFrom law ls rn
          (suc rn.volatile.commit_index)
          (length (law.log rn.storage) - 1)
          rn.volatile.commit_index
          (check_and_update_commit_index_locked rn).volatile.commit_index
  commit_rule ls rn leads has small fits = rw (check_and_update_as_leader ls rn leads has) (
      rw (apply_committed-IsApplied (advance_commit ls rn)).commit_index
        (advance_commit_lem law ls rn small fits))
