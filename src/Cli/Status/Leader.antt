-- ===== src/Cli/Status/Leader.antt =====
-- `leaderOf` of cmd/raftra-cli/main.go: the claim of the highest term.
use raftra.Common.{
  All, ℕ, zero, suc, ◌≤◌, ◌≡◌, refl, inl, inr, true, false, ◌&&◌, Option, none, some, List, [], ◌∷◌,
  arith, string_eq, nat_eq, ltb, get_elem?, Bool-cases,
}
use raftra.Cli.Status.{NodeStatus, term_of, claims, better, best_of, leader_of}

-- The node claims to lead, and no node that claims to has a higher term.
abbrev pub IsBest : NodeStatus → List NodeStatus → Type 0
IsBest n ns = (claims n ≡ true) × All (λ m. claims m ≡ true → term_of m ≤ term_of n) ns

-- The answer of `leaderOf` for the nodes: the best of them, or none if none of them claims.
abbrev pub IsAnswer : Option NodeStatus → List NodeStatus → Type 0
IsAnswer none ns = All (λ m. claims m ≡ false) ns
IsAnswer (some n) ns = IsBest n ns × ((i : ℕ) × (get_elem? ns i ≡ some n))

past :
    (best m : NodeStatus) (ns : List NodeStatus) (n : NodeStatus) (i : ℕ)
    → get_elem? (best ∷ ns) i ≡ some n
    → (j : ℕ) × (get_elem? (best ∷ m ∷ ns) j ≡ some n)
past best m ns n zero at = (0, at)
past best m ns n (suc i) at = (suc (suc i), at)

-- A node that does not claim changes nothing.
IsAnswer-cons :
    (o : Option NodeStatus) (m : NodeStatus) (ns : List NodeStatus)
    → claims m ≡ false
    → IsAnswer o ns
    → IsAnswer o (m ∷ ns)
IsAnswer-cons none m ns c h = (c, h)
IsAnswer-cons (some n) m ns c (best, (i, at)) =
    ((best.0, ((λ e. absurd (ground (arith, c, e))), best.1)), (suc i, at))

-- What the loop makes of the best so far.
best_of-some :
    (best : NodeStatus) (ns : List NodeStatus)
    → claims best ≡ true
    → (n : NodeStatus) × (best_of (some best) ns ≡ some n)
      × IsBest n (best ∷ ns)
      × ((i : ℕ) × (get_elem? (best ∷ ns) i ≡ some n))
unfolding best_of better
best_of-some best [] h = (best, refl, (h, (λ e. omega arith, tt)), (0, refl))
best_of-some best (m ∷ ns) h = elim (Bool-cases (claims m && ltb (term_of best) (term_of m))) [
  | inl up ↦
      let (n, e, k, (i, at)) = best_of-some m ns (ground (arith, up)) in
      (n, rw up e, (k.0, ((λ c. ground (arith, up, k.1.0)), k.1)), (suc i, at))
  | inr stay ↦
      let (n, e, k, (i, at)) = best_of-some best ns h in
      (
        n,
        rw stay e,
        (k.0, (k.1.0, ((λ c. ground (arith, stay, h, k.1.0)), k.1.1))),
        past best m ns n i at,
      )
]

-- `leaderOf` finds a node that claims to lead with the highest term among those that claim to, and
-- finds none only if no node claims to.
pub leader_of-IsAnswer : (ns : List NodeStatus) → IsAnswer (leader_of ns) ns
unfolding leader_of best_of better
leader_of-IsAnswer [] = tt
leader_of-IsAnswer (m ∷ ns) = elim (Bool-cases (claims m)) [
  | inl claim ↦ let (n, e, k, at) = best_of-some m ns claim in rw claim (rw e (k, at))
  | inr other ↦ rw other (IsAnswer-cons (best_of none ns) m ns other (leader_of-IsAnswer ns))
]
