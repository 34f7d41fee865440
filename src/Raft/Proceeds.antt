-- ===== src/Raft/Proceeds.antt =====
-- What only grows on a running node (internal/raft): the commit index and the index of the last applied
-- entry, the second never past the first; and a node that leads has the state of a leader.
use raftra.Common.{ℕ, ◌≤◌, ◌≡◌, ◌≢◌, false, none, arith, string_eq, nat_eq}
use raftra.Raft.Node.{RaftNode, leader, role_eq}
use raftra.Raft.Term.{check_term}
use raftra.Raft.Timer.{Env, reset_election_timer, reset_heartbeat_timer}
use raftra.Storage.{StorageBackend}

-- `rn.leader` is not nil while the node leads.
abbrev pub IsEquipped : {S : Type 0} → RaftNode S → Type 0
IsEquipped rn = rn.role ≡ leader → rn.leader_state ≢ none

abbrev pub IsOrdered : {S : Type 0} → RaftNode S → Type 0
IsOrdered rn = rn.volatile.last_applied ≤ rn.volatile.commit_index

pub record Proceeds {S : Type 0} (rn rn' : RaftNode S) : Type 0 where
  pub commit : rn.volatile.commit_index ≤ rn'.volatile.commit_index
  pub applied : rn.volatile.last_applied ≤ rn'.volatile.last_applied
  pub ordered : IsOrdered rn → IsOrdered rn'
  pub equipped : IsEquipped rn → IsEquipped rn'

module _ {S : Type 0} where
  pub Proceeds-refl : (rn : RaftNode S) → Proceeds rn rn
  Proceeds-refl rn = record {
    commit = omega arith;
    applied = omega arith;
    ordered = λ h. h;
    equipped = λ h. h;
  }

  pub Proceeds-trans : {r s t : RaftNode S} → Proceeds r s → Proceeds s t → Proceeds r t
  Proceeds-trans h k = record {
    commit = omega (arith, h.commit, k.commit);
    applied = omega (arith, h.applied, k.applied);
    ordered = λ o. k.ordered (h.ordered o);
    equipped = λ e. k.equipped (h.equipped e);
  }

  -- The indices are left alone, and the leader's state goes with the role.
  pub Proceeds-same :
      (rn rn' : RaftNode S)
      → rn'.volatile ≡ rn.volatile
      → (IsEquipped rn → IsEquipped rn')
      → Proceeds rn rn'
  Proceeds-same rn rn' v e = record {
    commit = ground (arith, v);
    applied = ground (arith, v);
    ordered = λ o. ground (arith, v, o);
    equipped = e;
  }

  pub reset_election_timer-Proceeds :
      (env : Env) (rn : RaftNode S) → Proceeds rn (reset_election_timer env rn)
  unfolding reset_election_timer
  reset_election_timer-Proceeds env rn = ground (arith, Proceeds-refl rn)

  pub reset_heartbeat_timer-Proceeds :
      (env : Env) (rn : RaftNode S) → Proceeds rn (reset_heartbeat_timer env rn)
  unfolding reset_heartbeat_timer
  reset_heartbeat_timer-Proceeds env rn = ground (arith, Proceeds-refl rn)

module _ {S : Type 0} ⦃b : StorageBackend S⦄ where
  pub check_term-Proceeds : (t : ℕ) (rn : RaftNode S) → Proceeds rn (check_term t rn).0
  unfolding check_term
  check_term-Proceeds t rn = ground arith

  pub check_term-older :
      (t : ℕ) (rn : RaftNode S) → (check_term t rn).1 ≡ false → (check_term t rn).0 ≡ rn
  unfolding check_term
  check_term-older t rn h = ground (arith, h)
