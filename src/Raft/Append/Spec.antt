-- ===== src/Raft/Append/Spec.antt =====
-- What a follower's log should become on AppendEntries (internal/raft/election.go, step 4 of
-- `HandleAppendEntries`): a function on plain lists, and what it achieves.
use raftra.Common.{
  length-append, length-take, take_all, length-le_of_none, lt-length_of_some, ℕ, zero, suc, ◌+◌,
  ◌≤◌, ◌≡◌, refl, sym, ap, ◌∙◌, ◌⊎◌, inl, inr, Option, none, some, List, [], ◌∷◌, ◌++◌, arith, ◌==◌,
  string_eq, nat_eq, if◌then◌else◌, length, take, drop, get_elem?, Bool-cases, Option-cases,
}
use native.Mathlib.Nat.{zero-add, add-zero}
use raftra.Proto.{LogEntry}

-- The new entries `es` belong at the indices from `n` on. Entries that are there with the same term
-- stay; from the first that is missing or differs, the new ones take over.
unfoldable pub merge_log : ℕ → List LogEntry → List LogEntry → List LogEntry
merge_log n [] log = log
merge_log n (e ∷ es) log = elim (get_elem? log n) [
  | none ↦ log ++ e ∷ es
  | some x ↦
      let go_on = merge_log (suc n) es log in
      if x.term == e.term then go_on else take n log ++ e ∷ es
]

-- Two logs match: where both hold an entry of the same term at an index, it is the same entry.
abbrev pub Matching : List LogEntry → List LogEntry → Type 0
Matching xs ys =
    (k : ℕ) (x y : LogEntry)
    → get_elem? xs k ≡ some x
    → get_elem? ys k ≡ some y
    → x.term ≡ y.term
    → x ≡ y

take-suc :
    {A : Type 0} (n : ℕ) (xs : List A) (x : A)
    → get_elem? xs n ≡ some x
    → take (suc n) xs ≡ take n xs ++ x ∷ []
take-suc n [] x h = cc
take-suc zero (y ∷ ys) x h = ground arith
take-suc (suc n) (y ∷ ys) x h = ap (λ t. y ∷ t) (take-suc n ys x h)

take-append_exact : {A : Type 0} (n : ℕ) (xs ys : List A) → length xs ≡ n → take n (xs ++ ys) ≡ xs
take-append_exact zero [] ys h = refl
take-append_exact zero (x ∷ xs) ys h = absurd (omega arith)
take-append_exact (suc n) [] ys h = absurd (omega arith)
take-append_exact (suc n) (x ∷ xs) ys h = ap (λ t. x ∷ t) (take-append_exact n xs ys (omega arith))

drop-cons :
    {A : Type 0} (n : ℕ) (xs : List A) (x : A) (r : List A)
    → drop n xs ≡ x ∷ r
    → (get_elem? xs n ≡ some x) × (drop (suc n) xs ≡ r)
drop-cons zero [] x r h = cc
drop-cons zero (y ∷ ys) x r h = ground arith
drop-cons (suc n) [] x r h = cc
drop-cons (suc n) (y ∷ ys) x r h = drop-cons n ys x r h

take-add :
    {A : Type 0} (n : ℕ) (xs es rest : List A)
    → drop n xs ≡ es ++ rest
    → take (n + length es) xs ≡ take n xs ++ es
take-add zero xs es rest h = rw zero-add (rw h (take-append_exact (length es) es rest refl))
take-add (suc n) [] [] rest h = rw add-zero
take-add (suc n) [] (e ∷ es) rest h = cc
take-add (suc n) (x ∷ xs) es rest h =
    let step : suc n + length es ≡ suc (n + length es) = omega arith in
    rw step (ap (λ t. x ∷ t) (take-add n xs es rest h))

take-append_all :
    {A : Type 0} (n : ℕ) (xs es : List A)
    → length xs ≡ n
    → take (n + length es) (xs ++ es) ≡ xs ++ es
take-append_all n xs es h = take_all (n + length es) (xs ++ es) (omega (arith, length-append xs es))

-- The new entries in place of what stands from `n` on, where the logs agree before `n`.
replaced :
    (n : ℕ) (es rest log leader_log : List LogEntry)
    → n ≤ length log
    → take n log ≡ take n leader_log
    → drop n leader_log ≡ es ++ rest
    → take (n + length es) (take n log ++ es) ≡ take (n + length es) leader_log
replaced n es rest log leader_log fits agree slice =
    take-append_all n (take n log) es (omega (arith, length-take n log))
    ∙ ap (λ t. t ++ es) agree
    ∙ sym (take-add n leader_log es rest slice)

-- If the follower's log has the leader's entries before `n`, the new entries are a slice of the
-- leader's log from `n` on, and the two logs match, then afterwards the follower's log has the
-- leader's entries through the last new one.
pub merge_log-agrees :
    (n : ℕ) (es rest log leader_log : List LogEntry)
    → n ≤ length log
    → take n log ≡ take n leader_log
    → drop n leader_log ≡ es ++ rest
    → Matching log leader_log
    → take (n + length es) (merge_log n es log) ≡ take (n + length es) leader_log
unfolding merge_log
merge_log-agrees n [] rest log leader_log fits agree slice m = rw add-zero agree
merge_log-agrees n (e ∷ es) rest log leader_log fits agree slice m =
    go (get_elem? log n) refl
      λ fits' agree'. merge_log-agrees (suc n) es rest log leader_log fits' agree' at_leader.1 m
  where
    at_leader : (get_elem? leader_log n ≡ some e) × (drop (suc n) leader_log ≡ es ++ rest)
    at_leader = drop-cons n leader_log e (es ++ rest) slice

    Agrees : List LogEntry → Type 0
    Agrees merged = take (n + length (e ∷ es)) merged ≡ take (n + length (e ∷ es)) leader_log

    go :
        (o : Option LogEntry)
        → get_elem? log n ≡ o
        → (suc n ≤ length log
            → take (suc n) log ≡ take (suc n) leader_log
            → take (suc n + length es) (merge_log (suc n) es log)
              ≡ take (suc n + length es) leader_log)
        → Agrees (merge_log n (e ∷ es) log)
    go none h ih =
        rw (h, merge_log)
          (rw (take_all n log (length-le_of_none log n h)) at
            (replaced n (e ∷ es) rest log leader_log fits agree slice))
    go (some x) h ih = elim (Bool-cases (x.term == e.term)) [
      | inl t ↦
          let eq : x ≡ e = m n x e h at_leader.0 (ground arith) in
          let taken : take (suc n) log ≡ take (suc n) leader_log =
            take-suc n log x h ∙ cc (agree, eq) ∙ sym (take-suc n leader_log e at_leader.0) in
          let shift : n + suc (length es) ≡ suc n + length es = omega arith in
          rw (h, merge_log) (rw t (rw shift (ih (lt-length_of_some log n x h) taken)))
      | inr t ↦ rw (h, merge_log) (rw t (replaced n (e ∷ es) rest log leader_log fits agree slice))
    ]

-- Entries that the log already holds, by their terms.
abbrev pub Covered : ℕ → List LogEntry → List LogEntry → Type 0
Covered n [] log = Unit
Covered n (e ∷ es) log =
    ((x : LogEntry) × (get_elem? log n ≡ some x) × (x.term ≡ e.term)) × Covered (suc n) es log

-- A request whose entries are all there, such as an old one that arrives late, leaves the log as it
-- is: what stands behind these entries is kept.
pub merge_log-Covered :
    (n : ℕ) (es log : List LogEntry) → Covered n es log → merge_log n es log ≡ log
unfolding merge_log
merge_log-Covered n [] log c = refl
merge_log-Covered n (e ∷ es) log ((x, h, t), c) =
    rw (h, merge_log)
      (rw ((nat_eq.equal_iff x.term e.term).1 t) (merge_log-Covered (suc n) es log c))

-- Either nothing is changed, or the log ends with the last new entry.
pub merge_log-cases :
    (n : ℕ) (es log : List LogEntry)
    → n ≤ length log
    → (merge_log n es log ≡ log) ⊎ (length (merge_log n es log) ≡ n + length es)
unfolding merge_log
merge_log-cases n [] log fits = inl refl
merge_log-cases n (e ∷ es) log fits = elim (Option-cases (get_elem? log n)) [
  | inl h ↦
      rw (h, merge_log) (inr (omega (arith, length-append log (e ∷ es), length-le_of_none log n h)))
  | inr (x, h) ↦
      rw (h, merge_log)
        (ground (
          arith,
          lt-length_of_some log n x h,
          merge_log-cases (suc n) es log,
          length-append (take n log) (e ∷ es),
          length-take n log,
        ))
]
