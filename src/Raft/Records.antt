-- ===== src/Raft/Records.antt =====
-- The log of a node in memory and on storage (internal/raft): a method leaves both alone, or appends the
-- same entries to both, at the indices that they carry.
use raftra.Common.{
  All, inl, ◌⊎◌, length-append, length-take, ℕ, zero, suc, ◌+◌, ◌<◌, ◌^◌, ◌≡◌, sym, ap, ◌∙◌, List,
  [], ◌∷◌, ◌++◌, arith, string_eq, nat_eq, u64, u64-eq_of_lt, length, take,
}
use mathlib.Core.List.{append-nil}
use native.Mathlib.Nat.{zero-add}
use raftra.Kvstore.{Bytes}
use raftra.Proto.{LogEntry, RequestVoteRequest}
use raftra.Raft.Kept.{IsKept}
use raftra.Raft.Node.{RaftNode, leader, role_eq}
use raftra.Raft.Run.{stop}
use raftra.Raft.Term.{check_term, persist_term, persist_vote}
use raftra.Raft.Timer.{Env, reset_election_timer, reset_heartbeat_timer}
use raftra.Raft.Vote.{handle_request_vote}
use raftra.Storage.{StorageBackend, IsLawful, AreIndexedFrom}

pub AreIndexedFrom-append :
    (n : ℕ) (xs ys : List LogEntry)
    → AreIndexedFrom n xs
    → AreIndexedFrom (n + length xs) ys
    → AreIndexedFrom n (xs ++ ys)
AreIndexedFrom-append n [] ys hx hy = let same : n + 0 ≡ n = omega arith in rw same at hy
AreIndexedFrom-append n (x ∷ xs) ys hx hy =
    let same : n + suc (length xs) ≡ suc n + length xs = omega arith in
    (hx.0, AreIndexedFrom-append (suc n) xs ys hx.1 (rw same at hy))

pub AreIndexedFrom-take :
    (n m : ℕ) (xs : List LogEntry) → AreIndexedFrom n xs → AreIndexedFrom n (take m xs)
AreIndexedFrom-take n zero xs h = tt
AreIndexedFrom-take n (suc m) [] h = tt
AreIndexedFrom-take n (suc m) (x ∷ xs) h = (h.0, AreIndexedFrom-take (suc n) m xs h.1)

-- A log that begins with an entry at index 0, its sentinel, and goes on without gaps.
abbrev pub Numbered : List LogEntry → Type 0
Numbered xs = (0 < length xs) × AreIndexedFrom 0 xs

pub Numbered-append :
    (xs ys : List LogEntry) → Numbered xs → AreIndexedFrom (length xs) ys → Numbered (xs ++ ys)
Numbered-append xs ys h ix =
    (omega (arith, h.0, length-append xs ys), AreIndexedFrom-append 0 xs ys h.1 (rw zero-add ix))

pub Numbered-take : (n : ℕ) (xs : List LogEntry) → 0 < n → Numbered xs → Numbered (take n xs)
Numbered-take n xs pos h = (ground (arith, h.0, length-take n xs), AreIndexedFrom-take 0 n xs h.1)

module _ {S : Type 0} ⦃b : StorageBackend S⦄ (law : IsLawful b) where
  abbrev pub IsRecorded : RaftNode S → Type 0
  IsRecorded rn = (rn.persistent.log ≡ law.log rn.storage) × Numbered (law.log rn.storage)

  abbrev pub SameLog : RaftNode S → RaftNode S → Type 0
  SameLog rn rn' =
      (law.log rn'.storage ≡ law.log rn.storage) × (rn'.persistent.log ≡ rn.persistent.log)

  -- Only a leader adds entries, in its term.
  abbrev pub Owns : RaftNode S → List LogEntry → Type 0
  Owns rn added =
      (added ≡ []) ⊎ (rn.role ≡ leader) × All (λ e. e.term ≡ rn.persistent.current_term) added

  -- Entries go to the end of both logs.
  abbrev pub Records : RaftNode S → RaftNode S → Type 0
  Records rn rn' =
      (added : List LogEntry) × AreIndexedFrom (length (law.log rn.storage)) added
      × (law.log rn'.storage ≡ law.log rn.storage ++ added)
      × (rn'.persistent.log ≡ rn.persistent.log ++ added)
      × Owns rn' added

  -- The log still has room for an entry whose index fits uint64.
  abbrev pub HasSpace : RaftNode S → Type 0
  HasSpace rn = length (law.log rn.storage) < 2 ^ 64

  pub SameLog-Records : (rn rn' : RaftNode S) → SameLog rn rn' → Records rn rn'
  SameLog-Records rn rn' (disk, memory) =
      ([], tt, disk ∙ sym (append-nil _), memory ∙ sym (append-nil _), inl (λ i. []))

  pub Records-after : (r s t : RaftNode S) → SameLog r s → Records s t → Records r t
  Records-after r s t (disk, memory) (added, ix, disk', memory', own) =
      (added, rw disk at ix, rw (← disk) disk', rw (← memory) memory', own)

  pub Records-before :
      (r s t : RaftNode S)
      → Records r s
      → SameLog s t
      → t.role ≡ s.role
      → t.persistent.current_term ≡ s.persistent.current_term
      → Records r t
  Records-before r s t (added, ix, disk, memory, own) (disk', memory') role term =
      (added, ix, disk' ∙ disk, memory' ∙ memory, rw (role, term) own)

  pub Records-IsRecorded : (rn rn' : RaftNode S) → Records rn rn' → IsRecorded rn → IsRecorded rn'
  Records-IsRecorded rn rn' (added, ix, disk, memory, own) (mirrored, numbered) = (
    memory ∙ ap (λ l. l ++ added) mirrored ∙ sym disk,
    rw disk (Numbered-append (law.log rn.storage) added numbered ix),
  )

  pub SameLog-kept : {rn rn' : RaftNode S} → IsKept rn rn' → SameLog rn rn'
  SameLog-kept k = (ap law.log k.storage, ap (λ p. p.log) k.persistent)

  pub check_term-SameLog : (t : ℕ) (rn : RaftNode S) → SameLog rn (check_term t rn).0
  unfolding check_term persist_term persist_vote
  check_term-SameLog t rn = ground (
    arith,
    law.log-save_term rn.storage t,
    law.log-save_voted_for (b.save_term t rn.storage).0 "",
  )

  pub reset_election_timer-SameLog :
      (env : Env) (rn : RaftNode S) → SameLog rn (reset_election_timer env rn)
  unfolding reset_election_timer
  reset_election_timer-SameLog env rn = ground arith

  pub reset_heartbeat_timer-SameLog :
      (env : Env) (rn : RaftNode S) → SameLog rn (reset_heartbeat_timer env rn)
  unfolding reset_heartbeat_timer
  reset_heartbeat_timer-SameLog env rn = ground arith

  pub stop-SameLog : (rn : RaftNode S) → SameLog rn (stop rn)
  unfolding stop
  stop-SameLog rn = ground arith

  pub handle_request_vote-SameLog :
      (env : Env) (req : RequestVoteRequest) (rn : RaftNode S)
      → SameLog rn (handle_request_vote env req rn).0
  unfolding handle_request_vote persist_vote reset_election_timer
  handle_request_vote-SameLog env req rn =
      grind (arith, check_term-SameLog req.term rn, law.log-save_voted_for)

  -- The entry that a leader makes stands at the end of its log.
  pub own_index :
      (rn : RaftNode S)
      → Numbered (law.log rn.storage)
      → HasSpace rn
      → u64 ((b.last_index rn.storage).0 + 1) ≡ length (law.log rn.storage)
  own_index rn h space =
      let last = law.last_index_lem rn.storage h.0 space in
      u64-eq_of_lt _ (omega (arith, last, space)) ∙ last

  -- The entry that a leader makes of a command.
  abbrev pub own_entry : Bytes → RaftNode S → LogEntry
  own_entry cmd rn = record {
    index = u64 ((b.last_index rn.storage).0 + 1);
    term = rn.persistent.current_term;
    command = cmd;
  }

  pub own_entry-IsIndexed :
      (cmd : Bytes) (rn : RaftNode S)
      → Numbered (law.log rn.storage)
      → HasSpace rn
      → AreIndexedFrom (length (law.log rn.storage)) (own_entry cmd rn ∷ [])
  own_entry-IsIndexed cmd rn h space = (own_index rn h space, tt)
