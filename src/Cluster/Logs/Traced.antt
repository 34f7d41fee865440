-- ===== src/Cluster/Logs/Traced.antt =====
-- Where the entries of a log come from (internal/raft): each was written by a leader of its term.
use raftra.Common.{
  length-take, lt-length_of_some, get_elem?-take, get_elem?-append_left, take_twice, All,
  All-get_elem?, ℕ, zero, suc, ◌+◌, ◌≤◌, ◌<◌, String, ◌≡◌, refl, sym, ap, ◌∙◌, ◌⊎◌, inl, inr, some,
  List, [], ◌∷◌, ◌++◌, arith, string_eq, nat_eq, length, take, get_elem?,
}
use native.Mathlib.Decide.{dec_lt}
use raftra.Cluster.Logs.{Wrote}
use raftra.Cluster.{Cluster, Move, Run, next}
use raftra.Kvstore.{Codec}
use raftra.Proto.{LogEntry, AppendEntriesRequest}
use raftra.Raft.Append.Agreement.{
  LogMatching, IsSliceOf, previous_agrees, merged_agrees, take_shorter,
}
use raftra.Raft.Append.Replicates.{HasPrevious, HasPrevious-fits}
use raftra.Raft.Append.Spec.{merge_log, merge_log-cases}
use raftra.Raft.Node.{role_eq}
use raftra.Storage.{StorageBackend, IsLawful, sentinel}

All-added :
    (P : LogEntry → Type 0) (xs added : List LogEntry) (k : ℕ) (x : LogEntry)
    → All P added
    → length xs ≤ k
    → get_elem? (xs ++ added) k ≡ some x
    → P x
All-added P [] added k x h le there = All-get_elem? P added k h there
All-added P (y ∷ xs) added zero x h le there = absurd (omega (arith, le))
All-added P (y ∷ xs) added (suc k) x h le there =
    All-added P xs added k x h (omega (arith, le)) there

pub take-append_left :
    (n : ℕ) (xs ys : List LogEntry) → n ≤ length xs → take n (xs ++ ys) ≡ take n xs
take-append_left zero xs ys h = refl
take-append_left (suc n) [] ys h = absurd (omega (arith, h))
take-append_left (suc n) (x ∷ xs) ys h =
    ap (λ t. x ∷ t) (take-append_left n xs ys (omega (arith, h)))

pub take_one : (xs : List LogEntry) (x : LogEntry) → get_elem? xs 0 ≡ some x → take 1 xs ≡ x ∷ []
take_one [] x h = cc
take_one (y ∷ xs) x h = ground (arith, h)

-- Logs with one prefix have one entry at an index within it.
same_entry :
    (n k : ℕ) (xs ys : List LogEntry)
    → k < n
    → take n xs ≡ take n ys
    → get_elem? xs k ≡ get_elem? ys k
same_entry n k xs ys lt e =
    sym (get_elem?-take n xs k lt)
    ∙ ap (λ (l : List LogEntry). get_elem? l k) e
    ∙ get_elem?-take n ys k lt

module _ {S : Type 0} ⦃b : StorageBackend S⦄ ⦃codec : Codec⦄ (law : IsLawful b)
    {members : List String} where
  -- Each entry of the log is the sentinel, or was written by a leader of its term after the entries that
  -- stand before it here.
  abbrev pub IsTraced : {first cl : Cluster S} → Run members first cl → List LogEntry → Type 0
  IsTraced r xs =
      (get_elem? xs 0 ≡ some sentinel)
      × ((k : ℕ) (x : LogEntry)
          → get_elem? xs k ≡ some x
          → (k ≡ 0)
            ⊎ ((m : String) × (l : List LogEntry) × Wrote law r m x.term l
                × (take (suc k) xs ≡ take (suc k) l)))

  pub IsTraced-later :
      {first cl cl' : Cluster S} (r : Run members first cl) (mv : Move members cl cl')
      (xs : List LogEntry)
      → IsTraced r xs
      → IsTraced (next r mv) xs
  IsTraced-later r mv xs h = (
    h.0,
    λ k x there. elim (h.1 k x there) [
      | inl zeroth ↦ inl zeroth
      | inr (m, l, wrote, same) ↦ inr (m, l, inl wrote, same)
    ],
  )

  pub IsTraced-take :
      {first cl : Cluster S} (r : Run members first cl) (n : ℕ) (xs : List LogEntry)
      → 0 < n
      → IsTraced r xs
      → IsTraced r (take n xs)
  IsTraced-take r n xs pos h = (
    get_elem?-take n xs 0 pos ∙ h.0,
    λ k x there. elim (dec_lt k n) [
      | no outside ↦
          absurd
            (ground (arith, outside, lt-length_of_some (take n xs) k x there, length-take n xs))
      | yes inside ↦ elim (h.1 k x (sym (get_elem?-take n xs k inside) ∙ there)) [
        | inl zeroth ↦ inl zeroth
        | inr (m, l, wrote, same) ↦ inr (m, l, wrote, sym (take_twice n (suc k) xs inside) ∙ same)
      ]
    ],
  )

  -- A log that a leader has written is traced with the entries that it adds.
  pub IsTraced-append :
      {first cl : Cluster S} (r : Run members first cl) (m : String) (t : ℕ)
      (xs added : List LogEntry)
      → IsTraced r xs
      → Wrote law r m t (xs ++ added)
      → All (λ e. e.term ≡ t) added
      → IsTraced r (xs ++ added)
  IsTraced-append r m t xs added h wrote terms = (
    get_elem?-append_left xs added 0 (lt-length_of_some xs 0 sentinel h.0) ∙ h.0,
    λ k x there. elim (dec_lt k (length xs)) [
      | yes inside ↦ elim (h.1 k x (sym (get_elem?-append_left xs added k inside) ∙ there)) [
        | inl zeroth ↦ inl zeroth
        | inr (j, l, old, same) ↦ inr (j, l, old, take-append_left (suc k) xs added inside ∙ same)
      ]
      | no outside ↦
          let own = All-added (λ e. e.term ≡ t) xs added k x terms (omega (arith, outside)) there in
          inr (m, xs ++ added, rw own wrote, refl)
    ],
  )

  -- A log that is merged with the request of a leader takes over what that leader had written.
  pub IsTraced-merge_log :
      {first cl : Cluster S} (r : Run members first cl) (req : AppendEntriesRequest)
      (xs l : List LogEntry)
      → IsTraced r xs
      → IsTraced r l
      → LogMatching xs l
      → IsSliceOf l req
      → HasPrevious req xs
      → IsTraced r (merge_log (suc req.prev_log_index) req.entries xs)
  IsTraced-merge_log r req xs l h h' matching s previous =
      let n = suc req.prev_log_index in
      let merged = merge_log n req.entries xs in
      let fits = HasPrevious-fits req xs (lt-length_of_some xs 0 sentinel h.0) previous in
      let agree = previous_agrees req xs l matching (h.0 ∙ sym h'.0) s previous in
      let (prefix, _) = merged_agrees n req.entries s.rest xs l fits agree s.slice matching in
      (
        same_entry (n + length req.entries) 0 merged l (omega arith) prefix ∙ h'.0,
        λ k x there. elim (dec_lt k (n + length req.entries)) [
          | yes inside ↦
              elim (h'.1 k x
                (sym (same_entry (n + length req.entries) k merged l inside prefix) ∙ there)) [
                  | inl zeroth ↦ inl zeroth
                  | inr (m, l', wrote, same) ↦ inr (
                    m,
                    l',
                    wrote,
                    take_shorter (n + length req.entries) (suc k) merged l inside prefix ∙ same,
                  )
                ]
          | no outside ↦ elim (merge_log-cases n req.entries xs fits) [
            | inl kept ↦ rw kept (h.1 k x (rw kept at there))
            | inr ends ↦ absurd (omega (arith, outside, ends, lt-length_of_some merged k x there))
          ]
        ],
      )
