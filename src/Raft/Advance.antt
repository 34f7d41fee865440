-- ===== src/Raft/Advance.antt =====
-- How the term and the vote of a node move: the term never falls, and within a term a vote, once
-- cast, is never changed. Every method of internal/raft/election.go and replication.go obeys.
use raftra.Common.{◌⊎◌, inr, ℕ, ◌<◌, ◌≡◌, refl, arith, string_eq, nat_eq}
use raftra.Raft.Node.{RaftNode, PersistentState}
use raftra.Raft.Term.{check_term}
use raftra.Raft.Timer.{Env, reset_election_timer, reset_heartbeat_timer}
use raftra.Storage.{StorageBackend}

-- The order of the pairs (term, vote): a later term, or the same one with the same vote, or with
-- any vote where there was none.
abbrev pub Advances : PersistentState → PersistentState → Type 0
Advances p q =
    (p.current_term < q.current_term)
    ⊎ (p.current_term ≡ q.current_term) × ((p.voted_for ≡ "") ⊎ (p.voted_for ≡ q.voted_for))

pub Advances-refl : (p : PersistentState) → Advances p p
Advances-refl p = inr (refl, inr refl)

pub Advances-trans : (p q r : PersistentState) → Advances p q → Advances q r → Advances p r
Advances-trans p q r h k = ground arith

pub Advances-eq : (p q : PersistentState) → q ≡ p → Advances p q
Advances-eq p q e = ground arith

module _ {S : Type 0} ⦃b : StorageBackend S⦄ where
  pub check_term-Advances :
      (t : ℕ) (rn : RaftNode S) → Advances rn.persistent (check_term t rn).0.persistent
  unfolding check_term
  check_term-Advances t rn = ground arith

module _ {S : Type 0} where
  pub persistent-reset_election_timer :
      (env : Env) (rn : RaftNode S) → (reset_election_timer env rn).persistent ≡ rn.persistent
  unfolding reset_election_timer
  persistent-reset_election_timer env rn = ground arith

  pub persistent-reset_heartbeat_timer :
      (env : Env) (rn : RaftNode S) → (reset_heartbeat_timer env rn).persistent ≡ rn.persistent
  unfolding reset_heartbeat_timer
  persistent-reset_heartbeat_timer env rn = ground arith
