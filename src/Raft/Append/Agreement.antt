-- ===== src/Raft/Append/Agreement.antt =====
-- A follower that answers AppendEntries with success (internal/raft/election.go) agrees with the
-- leader's log, given the Log Matching property of Raft.
use raftra.Common.{
  take_twice, get_elem?-take, lt-length_of_some, ℕ, suc, ◌+◌, ◌≤◌, ◌<◌, ◌^◌, ◌≡◌, refl, sym, ap,
  ◌∙◌, inl, inr, true, some, List, ◌++◌, arith, string_eq, nat_eq, length, take, drop, get_elem?,
}
use native.Mathlib.Decide.{dec_lt}
use raftra.Kvstore.{Codec}
use raftra.Proto.{LogEntry, AppendEntriesRequest}
use raftra.Raft.Append.Replicates.{
  IsMirrored, HasPrevious, HasPrevious-fits, handle_append_entries-merges,
}
use raftra.Raft.Append.Spec.{merge_log, merge_log-agrees, merge_log-cases, Matching}
use raftra.Raft.Append.{handle_append_entries}
use raftra.Raft.Node.{RaftNode}
use raftra.Raft.Timer.{Env}
use raftra.Storage.{StorageBackend, IsLawful, AreIndexedFrom}

-- Log Matching: entries of one term at one index stand at the end of the same prefix.
abbrev pub LogMatching : List LogEntry → List LogEntry → Type 0
LogMatching xs ys =
    (k : ℕ) (x y : LogEntry)
    → get_elem? xs k ≡ some x
    → get_elem? ys k ≡ some y
    → x.term ≡ y.term
    → take (suc k) xs ≡ take (suc k) ys

-- The request carries a slice of the leader's log, after an entry of that log.
pub record IsSliceOf (leader_log : List LogEntry) (req : AppendEntriesRequest) : Type 0 where
  pub previous : LogEntry
  pub rest : List LogEntry
  pub at_previous : get_elem? leader_log req.prev_log_index ≡ some previous
  pub previous_term : previous.term ≡ req.prev_log_term
  pub slice : drop (suc req.prev_log_index) leader_log ≡ req.entries ++ rest

LogMatching-Matching : (xs ys : List LogEntry) → LogMatching xs ys → Matching xs ys
LogMatching-Matching xs ys m k x y hx hy t = cc (
  hx,
  hy,
  get_elem?-take (suc k) xs k (omega arith),
  get_elem?-take (suc k) ys k (omega arith),
  ap (λ (l : List LogEntry). get_elem? l k) (m k x y hx hy t),
)

pub take_shorter :
    {A : Type 0} (n m : ℕ) (xs ys : List A) → m ≤ n → take n xs ≡ take n ys → take m xs ≡ take m ys
take_shorter n m xs ys h e = take_twice n m xs h ∙ ap (take m) e ∙ sym (take_twice n m ys h)

-- Two logs that agree at the named previous entry agree up to it.
pub previous_agrees :
    (req : AppendEntriesRequest) (log leader_log : List LogEntry)
    → LogMatching log leader_log
    → get_elem? log 0 ≡ get_elem? leader_log 0
    → IsSliceOf leader_log req
    → HasPrevious req log
    → take (suc req.prev_log_index) log ≡ take (suc req.prev_log_index) leader_log
previous_agrees req log leader_log m same s (inl e) =
    m req.prev_log_index s.previous s.previous (rw e (same ∙ rw e at s.at_previous)) s.at_previous
      refl
previous_agrees req log leader_log m same s (inr (x, h, t)) =
    m req.prev_log_index x s.previous h s.at_previous (t ∙ sym s.previous_term)

-- The merged log agrees with the leader's through the last new entry, and the two still match.
pub merged_agrees :
    (n : ℕ) (es rest log leader_log : List LogEntry)
    → n ≤ length log
    → take n log ≡ take n leader_log
    → drop n leader_log ≡ es ++ rest
    → LogMatching log leader_log
    → (take (n + length es) (merge_log n es log) ≡ take (n + length es) leader_log)
      × LogMatching (merge_log n es log) leader_log
merged_agrees n es rest log leader_log fits agree slice m = (prefix, still)
  where
    prefix : take (n + length es) (merge_log n es log) ≡ take (n + length es) leader_log
    prefix =
        merge_log-agrees n es rest log leader_log fits agree slice
          (LogMatching-Matching log leader_log m)

    still : LogMatching (merge_log n es log) leader_log
    still k x y hx hy t = elim (dec_lt k (n + length es)) [
      | yes inside ↦
          take_shorter (n + length es) (suc k) (merge_log n es log) leader_log inside prefix
      | no outside ↦ elim (merge_log-cases n es log fits) [
        | inl kept ↦ rw kept (m k x y (rw kept at hx) hy t)
        | inr ends ↦ absurd (omega (arith, lt-length_of_some (merge_log n es log) k x hx))
      ]
    ]

module _ {S : Type 0} ⦃b : StorageBackend S⦄ ⦃codec : Codec⦄ (law : IsLawful b) where
  -- If the request carries a slice of the leader's log, the follower's log matches the leader's log
  -- and starts with the same sentinel, then after a success the follower's log has the leader's
  -- entries through the last one of the request, and the two logs still match.
  pub handle_append_entries-agrees :
      (env : Env) (req : AppendEntriesRequest) (rn : RaftNode S) (leader_log : List LogEntry)
      → IsMirrored law rn
      → req.prev_log_index + 1 + length req.entries < 2 ^ 64
      → AreIndexedFrom (suc req.prev_log_index) req.entries
      → IsSliceOf leader_log req
      → LogMatching (law.log rn.storage) leader_log
      → get_elem? (law.log rn.storage) 0 ≡ get_elem? leader_log 0
      → (handle_append_entries env req rn).1.success ≡ true
      → (take
            (suc req.prev_log_index + length req.entries)
            (law.log (handle_append_entries env req rn).0.storage)
          ≡ take (suc req.prev_log_index + length req.entries) leader_log)
        × LogMatching (law.log (handle_append_entries env req rn).0.storage) leader_log
  handle_append_entries-agrees env req rn leader_log mirrored small ix s m same ok =
      let (_, previous, merged) =
        handle_append_entries-merges law env req rn mirrored small ix ok in
      let fits = HasPrevious-fits req (law.log rn.storage) mirrored.has_sentinel previous in
      rw merged (
        merged_agrees (suc req.prev_log_index) req.entries s.rest (law.log rn.storage) leader_log
          fits (previous_agrees req (law.log rn.storage) leader_log m same s previous) s.slice m)
