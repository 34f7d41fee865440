-- ===== src/Common/Sets.antt =====
-- Lists of names as finite sets: predicates on every item, membership as a test, and the fact that two
-- lists without repetition that are together longer than a list that holds both have an item in common.
use Prim.Native.Nat.{ℕ, zero, suc, ◌+◌, ◌<◌}
use mathlib.Core.Path.{◌≡◌, refl, subst}
use mathlib.Core.Logic.{inl, inr}
use mathlib.Core.Bool.{Bool, true, false, ◌||◌, ◌&&◌}
use mathlib.Core.Option.{some}
use mathlib.Core.List.{List, [], ◌∷◌, ◌++◌}
use native.Mathlib.Omega.{arith}
use raftra.Common.Lists.{length, get_elem?}
use raftra.Common.Tests.{Comparable, ◌==◌, if◌then◌else◌, Bool-cases}

abbrev pub All {ℓ κ} : {A : Type ℓ} → (A → Type κ) → List A → Type κ
All P [] = Unit
All P (x ∷ xs) = P x × All P xs

pub All-append {ℓ κ} :
    {A : Type ℓ} (P : A → Type κ) (xs ys : List A) → All P xs → All P ys → All P (xs ++ ys)
All-append P [] ys hx hy = hy
All-append P (x ∷ xs) ys hx hy = (hx.0, All-append P xs ys hx.1 hy)

pub All-split {ℓ κ} :
    {A : Type ℓ} (P : A → Type κ) (xs ys : List A) → All P (xs ++ ys) → All P xs × All P ys
All-split P [] ys h = (tt, h)
All-split P (x ∷ xs) ys h = let rest = All-split P xs ys h.1 in ((h.0, rest.0), rest.1)

pub All-mono {ℓ κ μ} :
    {A : Type ℓ} (P : A → Type κ) (Q : A → Type μ) (xs : List A)
    → ((x : A) → P x → Q x)
    → All P xs
    → All Q xs
All-mono P Q [] f h = tt
All-mono P Q (x ∷ xs) f h = (f x h.0, All-mono P Q xs f h.1)

pub All-get_elem? {ℓ κ} :
    {A : Type ℓ} (P : A → Type κ) (xs : List A) (i : ℕ) {x : A}
    → All P xs
    → get_elem? xs i ≡ some x
    → P x
All-get_elem? P [] i h e = absurd (ground (arith, e))
All-get_elem? P (y ∷ xs) zero h e = subst P (ground arith) h.0
All-get_elem? P (y ∷ xs) (suc i) h e = All-get_elem? P xs i h.1 e

module _ {ℓ} {A : Type ℓ} ⦃e : Comparable A⦄ where
  abbrev pub contains : List A → A → Bool
  contains [] a = false
  contains (x ∷ xs) a = x == a || contains xs a

  abbrev pub Distinct : List A → Type ℓ
  Distinct [] = Unit
  Distinct (x ∷ xs) = (contains xs x ≡ false) × Distinct xs

  -- The list without every occurrence of an item.
  abbrev pub without : A → List A → List A
  without a [] = []
  without a (x ∷ xs) = let rest = without a xs in if x == a then rest else x ∷ rest

  pub contains-without :
      (a b : A) (xs : List A)
      → contains (without a xs) b ≡ (if a == b then false else contains xs b)
  contains-without a b [] = ground arith
  contains-without a b (x ∷ xs) =
      ground (arith, e.equal_iff x a, e.equal_iff x b, e.equal_iff a b, contains-without a b xs)

  pub without-Distinct : (a : A) (xs : List A) → Distinct xs → Distinct (without a xs)
  without-Distinct a [] h = tt
  without-Distinct a (x ∷ xs) h = ground (arith, without-Distinct a xs h.1, contains-without a x xs)

  without_missing : (a : A) (xs : List A) → contains xs a ≡ false → without a xs ≡ xs
  without_missing a [] h = refl
  without_missing a (x ∷ xs) h = ground (arith, without_missing a xs)

  length-without :
      (a : A) (xs : List A)
      → Distinct xs
      → length xs ≡ (if contains xs a then suc (length (without a xs)) else length (without a xs))
  length-without a [] h = refl
  length-without a (x ∷ xs) h =
      ground (arith, e.equal_iff x a, length-without a xs h.1, without_missing a xs)

  pub contains-All {κ} :
      (P : A → Type κ) (xs : List A) (a : A) → All P xs → contains xs a ≡ true → P a
  contains-All P [] a h m = absurd (ground (arith, m))
  contains-All P (x ∷ xs) a h m = elim (Bool-cases (x == a)) [
    | inl same ↦ subst P ((e.equal_iff x a).0 same) h.0
    | inr other ↦ contains-All P xs a h.1 (ground arith)
  ]

  -- The items of one list are in another.
  abbrev pub Within : List A → List A → Type 0
  Within ys xs = All (λ x. contains ys x ≡ true) xs

  Within-without : (m : A) (ms xs : List A) → Within (m ∷ ms) xs → Within ms (without m xs)
  Within-without m ms [] h = tt
  Within-without m ms (x ∷ xs) h =
      ground (arith, e.equal_iff x m, e.equal_iff m x, Within-without m ms xs h.1)

  pub share :
      (ms vs ws : List A)
      → Distinct vs
      → Distinct ws
      → Within ms vs
      → Within ms ws
      → length ms < length vs + length ws
      → (a : A) × (contains vs a ≡ true) × (contains ws a ≡ true)
  share [] [] [] dv dw iv iw h = absurd (omega arith)
  share [] (v ∷ vs) ws dv dw iv iw h = absurd (ground (arith, iv.0))
  share [] [] (w ∷ ws) dv dw iv iw h = absurd (ground (arith, iw.0))
  share (m ∷ ms) vs ws dv dw iv iw h =
      let next =
        share ms (without m vs) (without m ws) (without-Distinct m vs dv) (without-Distinct m ws dw)
          (Within-without m ms vs iv) (Within-without m ms ws iw) in
      elim (Bool-cases (contains vs m && contains ws m)) [
        | inl both ↦ (m, ground arith, ground arith)
        | inr apart ↦
            let (a, hv, hw) =
              next (ground (arith, length-without m vs dv, length-without m ws dw)) in
            (
              a,
              ground (arith, contains-without m a vs, hv),
              ground (arith, contains-without m a ws, hw),
            )
      ]

  pub without-Within : (ms : List A) (a : A) (xs : List A) → Within ms xs → Within ms (without a xs)
  without-Within ms a [] h = tt
  without-Within ms a (x ∷ xs) h = elim (Bool-cases (x == a)) [
    | inl gone ↦ rw gone (without-Within ms a xs h.1)
    | inr kept ↦ rw kept (h.0, without-Within ms a xs h.1)
  ]

  -- No item of the second list is in the first.
  abbrev pub Apart : List A → List A → Type 0
  Apart ws vs = All (λ v. contains ws v ≡ false) vs

  pub Apart-absent :
      (ws : List A) (a : A) (vs : List A)
      → contains ws a ≡ true
      → Apart ws vs
      → contains vs a ≡ false
  Apart-absent ws a [] w h = refl
  Apart-absent ws a (v ∷ vs) w h = elim (Bool-cases (v == a)) [
    | inl same ↦ absurd (ground (arith, h.0, (e.equal_iff v a).0 same))
    | inr other ↦ rw other (Apart-absent ws a vs w h.1)
  ]

  pub Apart-without : (ws : List A) (a : A) (vs : List A) → Apart ws vs → Apart (without a ws) vs
  Apart-without ws a vs h =
      All-mono (λ v. contains ws v ≡ false) (λ v. contains (without a ws) v ≡ false) vs
        (λ v k. ground (arith, contains-without a v ws)) h
