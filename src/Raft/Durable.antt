-- ===== src/Raft/Durable.antt =====
-- The term and the vote on stable storage (internal/raft): "state that must be saved to stable storage
-- before responding to RPCs". A node drops the errors of SaveTerm and SaveVotedFor, so what is shown
-- here is about a storage whose writes of the two succeed.
use raftra.Common.{ℕ, String, ◌≡◌, none, arith, string_eq, nat_eq}
use raftra.Raft.Kept.{IsKept}
use raftra.Raft.Node.{RaftNode}
use raftra.Raft.Term.{check_term, persist_term, persist_vote}
use raftra.Storage.{StorageBackend, IsLawful}

-- The writes of the term and the vote do not fail.
pub record IsWritable {S : Type 0} (b : StorageBackend S) : Type 0 where
  pub save_term-ok : (t : ℕ) (s : S) → (b.save_term t s).1 ≡ none
  pub save_voted_for-ok : (c : String) (s : S) → (b.save_voted_for c s).1 ≡ none

module _ {S : Type 0} ⦃b : StorageBackend S⦄ (law : IsLawful b) where
  -- The storage holds the node's term and vote.
  abbrev pub IsDurable : RaftNode S → Type 0
  IsDurable rn =
      (law.term rn.storage ≡ rn.persistent.current_term)
      × (law.voted_for rn.storage ≡ rn.persistent.voted_for)

  pub IsDurable-kept : {rn rn' : RaftNode S} → IsKept rn rn' → IsDurable rn → IsDurable rn'
  IsDurable-kept {rn} {rn'} k h = ground (arith, k.storage, k.persistent)

  -- A write of the log leaves what the storage holds of the two.
  unfoldable pub SameVote : S → S → Type 0
  SameVote s s' = (law.term s' ≡ law.term s) × (law.voted_for s' ≡ law.voted_for s)

  module _ (ok : IsWritable b) where
    pub check_term-IsDurable :
        (t : ℕ) (rn : RaftNode S) → IsDurable rn → IsDurable (check_term t rn).0
    unfolding check_term persist_term persist_vote
    check_term-IsDurable t rn h = grind (
      arith,
      law.save_term_lem rn.storage t (ok.save_term-ok t rn.storage),
      law.save_voted_for_lem (b.save_term t rn.storage).0 "" (ok.save_voted_for-ok "" _),
      law.term-save_voted_for (b.save_term t rn.storage).0 "",
    )

    pub save_voted_for-SameTerm :
        (c : String) (s : S)
        → (law.voted_for (b.save_voted_for c s).0 ≡ c)
          × (law.term (b.save_voted_for c s).0 ≡ law.term s)
    save_voted_for-SameTerm c s =
        (law.save_voted_for_lem s c (ok.save_voted_for-ok c s), law.term-save_voted_for s c)
