-- ===== src/Common/Strings.antt =====
-- The functions of Go's package strings that the program calls with a one-byte separator.
use mathlib.Core.List.{cons-ne-nil}
use go_asyncapi.Common.Tests.{eqb, if◌then◌else◌, Bool-cases}
use go_asyncapi.Common.Lists.{Bytes, All}
use Prim.Native.Nat.{ℕ}
use mathlib.Core.Path.{◌≡◌, refl, ap, ◌∙◌}
use mathlib.Core.Logic.{◌≢◌, inl, inr}
use mathlib.Core.Bool.{Bool, true, false, ◌&&◌}
use mathlib.Core.List.{List, [], ◌∷◌, ◌++◌}
use native.Mathlib.Omega.{arith}

abbrev pub Lacks : ℕ → Bytes → Type 0
Lacks b = All (λ c. c ≢ b)

abbrev pub cons_head : ℕ → List Bytes → List Bytes
cons_head c [] = (c ∷ []) ∷ []
cons_head c (p ∷ ps) = (c ∷ p) ∷ ps

-- strings.Split(s, sep): always at least one part
unfoldable pub split : ℕ → Bytes → List Bytes
split sep [] = [] ∷ []
split sep (c ∷ s) = let rest = split sep s in if eqb c sep then [] ∷ rest else cons_head c rest

-- strings.Join(parts, sep)
unfoldable pub join : ℕ → List Bytes → Bytes
join sep [] = []
join sep (p ∷ []) = p
join sep (p ∷ q ∷ ps) = p ++ sep ∷ join sep (q ∷ ps)

-- strings.HasPrefix(s, prefix)
unfoldable pub has_prefix : Bytes → Bytes → Bool
has_prefix s [] = true
has_prefix [] (p ∷ ps) = false
has_prefix (c ∷ s) (p ∷ ps) = eqb c p && has_prefix s ps

pub split-Lacks : (sep : ℕ) (p : Bytes) → Lacks sep p → split sep p ≡ p ∷ []
unfolding split
split-Lacks sep [] h = refl
split-Lacks sep (c ∷ p) (hc, hp) = ground (arith, split-Lacks sep p hp)

-- A part that lacks the separator is split off whole.
pub split-part :
    (sep : ℕ) (p rest : Bytes) → Lacks sep p → split sep (p ++ sep ∷ rest) ≡ p ∷ split sep rest
unfolding split
split-part sep [] rest h = ground arith
split-part sep (c ∷ p) rest (hc, hp) = ground (arith, split-part sep p rest hp)

-- Splitting a join gives the parts back, if there is one and none holds the separator.
pub split-join :
    (sep : ℕ) (ps : List Bytes) → ps ≢ [] → All (Lacks sep) ps → split sep (join sep ps) ≡ ps
unfolding join
split-join sep [] h _ = absurd (h refl)
split-join sep (p ∷ []) h (hp, _) = split-Lacks sep p hp
split-join sep (p ∷ q ∷ ps) h (hp, hps) =
    split-part sep p (join sep (q ∷ ps)) hp
    ∙ ap (λ r. p ∷ r) (split-join sep (q ∷ ps) (cons-ne-nil q ps) hps)

join-cons_head :
    (sep c : ℕ) (ps : List Bytes) → ps ≢ [] → join sep (cons_head c ps) ≡ c ∷ join sep ps
unfolding join
join-cons_head sep c [] h = absurd (h refl)
join-cons_head sep c (p ∷ []) h = refl
join-cons_head sep c (p ∷ q ∷ ps) h = refl

pub split-ne-nil : (sep : ℕ) (s : Bytes) → split sep s ≢ []
unfolding split
split-ne-nil sep [] = cons-ne-nil [] []
split-ne-nil sep (c ∷ s) =
    elim (split sep s) as (λ r. (if eqb c sep then [] ∷ r else cons_head c r) ≢ []) [
      | [] ↦ ground arith
      | p ∷ ps ↦ ground arith
    ]

join-cons_nil : (sep : ℕ) (ps : List Bytes) → ps ≢ [] → join sep ([] ∷ ps) ≡ sep ∷ join sep ps
unfolding join
join-cons_nil sep [] h = absurd (h refl)
join-cons_nil sep (p ∷ ps) h = refl

-- Joining the parts of a split gives the text back.
pub join-split : (sep : ℕ) (s : Bytes) → join sep (split sep s) ≡ s
unfolding split join
join-split sep [] = refl
join-split sep (c ∷ s) = elim (Bool-cases (eqb c sep)) [
  | inl p ↦
      rw p (join-cons_nil sep (split sep s) (split-ne-nil sep s) ∙ ground (arith, join-split sep s))
  | inr p ↦
      rw p (
        join-cons_head sep c (split sep s) (split-ne-nil sep s)
        ∙ ap (λ r. c ∷ r) (join-split sep s))
]
