-- ===== src/Raft/Append/Durable.antt =====
-- Serving AppendEntries (internal/raft/election.go) keeps the term and the vote on stable storage.
use raftra.Common.{ℕ, suc, ◌+◌, refl, List, [], ◌∷◌, arith, string_eq, nat_eq, u64}
use raftra.Kvstore.{Codec}
use raftra.Proto.{LogEntry, AppendEntriesRequest}
use raftra.Raft.Append.{
  Logs, append_rest, cut_at, replace_from, merge_entries, follow, accept, follow_commit,
  handle_append_entries,
}
use raftra.Raft.Apply.Frame.{apply_committed-IsApplied}
use raftra.Raft.Durable.{IsWritable, IsDurable, SameVote, check_term-IsDurable}
use raftra.Raft.Node.{RaftNode, role_eq}
use raftra.Raft.Timer.{Env, reset_election_timer}
use raftra.Storage.{StorageBackend, IsLawful}

module _ {S : Type 0} ⦃b : StorageBackend S⦄ (law : IsLawful b) where
  append_rest-SameVote :
      (es : List LogEntry) (l : Logs S) → SameVote law l.storage (append_rest es l).0.storage
  unfolding append_rest SameVote
  append_rest-SameVote es l =
      ground
        (arith, law.term-append_entries l.storage es, law.voted_for-append_entries l.storage es)

  replace_from-SameVote :
      (n : ℕ) (es : List LogEntry) (l : Logs S)
      → SameVote law l.storage (replace_from n es l).0.storage
  unfolding replace_from cut_at SameVote
  replace_from-SameVote n es l =
      grind (arith, law.term-truncate_from, law.voted_for-truncate_from, append_rest-SameVote)

  merge_entries-SameVote :
      (prev i : ℕ) (es : List LogEntry) (l : Logs S)
      → SameVote law l.storage (merge_entries prev i es l).0.storage
  unfolding merge_entries SameVote
  merge_entries-SameVote prev i [] l = (refl, refl)
  merge_entries-SameVote prev i (e ∷ es) l = ground (
    arith,
    append_rest-SameVote (e ∷ es) l,
    replace_from-SameVote (u64 (prev + 1 + i)) (e ∷ es) l,
    merge_entries-SameVote prev (suc i) es l,
  )

  follow-IsDurable :
      (ok : IsWritable b) (env : Env) (req : AppendEntriesRequest) (rn : RaftNode S)
      → IsDurable law rn
      → IsDurable law (follow env req rn)
  unfolding follow reset_election_timer
  follow-IsDurable ok env req rn h = ground (arith, check_term-IsDurable law ok req.term rn h)

module _ {S : Type 0} ⦃b : StorageBackend S⦄ ⦃codec : Codec⦄ (law : IsLawful b) where
  follow_commit-IsDurable :
      (commit last : ℕ) (rn : RaftNode S)
      → IsDurable law rn
      → IsDurable law (follow_commit commit last rn)
  unfolding follow_commit
  follow_commit-IsDurable commit last rn h = grind (arith, apply_committed-IsApplied)

  accept-IsDurable :
      (req : AppendEntriesRequest) (rn : RaftNode S)
      → IsDurable law rn
      → IsDurable law (accept req rn).0
  unfolding accept SameVote
  accept-IsDurable req rn h = grind (
    arith,
    follow_commit-IsDurable,
    merge_entries-SameVote law req.prev_log_index 0 req.entries
        (record { storage = rn.storage; memory = rn.persistent.log }),
  )

  pub handle_append_entries-IsDurable :
      (ok : IsWritable b) (env : Env) (req : AppendEntriesRequest) (rn : RaftNode S)
      → IsDurable law rn
      → IsDurable law (handle_append_entries env req rn).0
  unfolding handle_append_entries
  handle_append_entries-IsDurable ok env req rn h =
      ground
        (arith, accept-IsDurable req (follow env req rn) (follow-IsDurable law ok env req rn h))
