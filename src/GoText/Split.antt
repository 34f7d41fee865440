-- ===== src/GoText/Split.antt =====
-- Splitting a text at a separator undoes joining.
use raftra.Common.{
  All, String, ◌≡◌, refl, ap, ◌∙◌, Bool, true, false, not, ◌&&◌, List, [], ◌∷◌, arith, ◌==◌,
  string_eq, nat_eq,
}
use Prim.Native.Char.{Char, code}
use Prim.Native.String.{◌++◌ as concat}
use text.Mathlib.TextLemmas.{nil-append, cons-append}
use raftra.GoText.{split, join}

-- A text without the separator.
abbrev pub lacks : Char → String → Bool
lacks sep String.[] = true
lacks sep (String.◌∷◌ c s) = not (code c == code sep) && lacks sep s

abbrev pub Lacks : Char → String → Type 0
Lacks sep s = lacks sep s ≡ true

Lacks-cons :
    (sep c : Char) (s : String)
    → Lacks sep (String.◌∷◌ c s)
    → (code c == code sep ≡ false) × Lacks sep s
Lacks-cons sep c s h = (ground (arith, h), ground (arith, h))

pub split-concat :
    (sep : Char) (t s : String)
    → Lacks sep t
    → split sep (concat t (String.◌∷◌ sep s)) ≡ t ∷ split sep s
unfolding split
split-concat sep String.[] s h = rw (nil-append (String.◌∷◌ sep s)) (ground arith)
split-concat sep (String.◌∷◌ c t) s h =
    rw (cons-append c t (String.◌∷◌ sep s))
      (let k = Lacks-cons sep c t h in ground (arith, k.0, split-concat sep t s k.1))

pub split-lacks : (sep : Char) (t : String) → Lacks sep t → split sep t ≡ t ∷ []
unfolding split
split-lacks sep String.[] h = refl
split-lacks sep (String.◌∷◌ c t) h =
    let k = Lacks-cons sep c t h in ground (arith, k.0, split-lacks sep t k.1)

pub split-join :
    (sep : Char) (t : String) (ts : List String)
    → Lacks sep t
    → All (Lacks sep) ts
    → split sep (join sep (t ∷ ts)) ≡ t ∷ ts
unfolding join
split-join sep t [] h hs = split-lacks sep t h
split-join sep t (u ∷ ts) h hs =
    split-concat sep t (join sep (u ∷ ts)) h ∙ ap (λ r. t ∷ r) (split-join sep u ts hs.0 hs.1)
