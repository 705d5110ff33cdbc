-- ===== src/Render/Sorting.antt =====
-- Sorting by name, and filters of lists in any order.
use mathlib.Core.List.{Permᴰ}
use mathlib.Core.Path.{subst}
use go_asyncapi.Common.{
  ℕ, ◌≡◌, ◌≤◌, ◌∙◌, refl, sym, Bool, true, false, ◌&&◌, ◌||◌, Option, none, some, List, [], ◌∷◌,
  ◌+◌, Bytes, ◌>>=◌, if◌then◌else◌, eqb, ltb, arith, All, Has, inl, inr, Bool-cases, ◌⊎◌,
}
use go_asyncapi.Render.Linked.{filter_all}

-- cmp.Compare on strings is not positive.
abbrev pub name_leb : Bytes → Bytes → Bool
name_leb [] t = true
name_leb (c ∷ s) [] = false
name_leb (c ∷ s) (d ∷ t) = ltb c d || (eqb c d && name_leb s t)

name_leb-antisym : (s t : Bytes) → name_leb s t ≡ true → name_leb t s ≡ true → s ≡ t
name_leb-antisym [] [] h k = refl
name_leb-antisym [] (d ∷ t) h k = cc
name_leb-antisym (c ∷ s) [] h k = cc
name_leb-antisym (c ∷ s) (d ∷ t) h k = ground (arith, name_leb-antisym s t)

abbrev pub Sorted : (ℕ → Bytes) → List ℕ → Type 0
Sorted f [] = Unit
Sorted f (x ∷ xs) = All (λ y. name_leb (f x) (f y) ≡ true) xs × Sorted f xs

abbrev pub tally : ℕ → List ℕ → ℕ
tally k [] = 0
tally k (x ∷ xs) = (if eqb x k then 1 else 0) + tally k xs

-- The same numbers, each as often.
abbrev pub SameTally : List ℕ → List ℕ → Type 0
SameTally xs ys = (k : ℕ) → tally k xs ≡ tally k ys

abbrev pub Distinct : (ℕ → Bytes) → List ℕ → Type 0
Distinct f xs = (j k : ℕ) → Has j xs → Has k xs → f j ≡ f k → j ≡ k

has_of_tally : (k : ℕ) (xs : List ℕ) → 1 ≤ tally k xs → Has k xs
has_of_tally k [] h = ground arith
has_of_tally k (x ∷ xs) h = elim (Bool-cases (eqb x k)) [
  | inl e ↦ inl (ground arith)
  | inr e ↦ inr (has_of_tally k xs (ground arith))
]

at_Has : (P : ℕ → Type 0) (k : ℕ) (xs : List ℕ) → All P xs → Has k xs → P k
at_Has P k (x ∷ xs) (p, ps) (inl e) = subst P e p
at_Has P k (x ∷ xs) (p, ps) (inr h) = at_Has P k xs ps h
at_Has P k [] p h = absurd h

-- The head of a sorted list comes before every member.
head_least :
    (f : ℕ → Bytes) (x : ℕ) (xs : List ℕ)
    → Sorted f (x ∷ xs)
    → (k : ℕ) → Has k (x ∷ xs)
    → (x ≡ k) ⊎ (name_leb (f x) (f k) ≡ true)
head_least f x xs (h, hs) k (inl e) = inl e
head_least f x xs (h, hs) k (inr p) = inr (at_Has (λ y. name_leb (f x) (f y) ≡ true) k xs h p)

tally_head : (x : ℕ) (xs : List ℕ) → 1 ≤ tally x (x ∷ xs)
tally_head x xs = ground arith

same_head :
    (f : ℕ → Bytes) (x y : ℕ) (xs ys : List ℕ)
    → SameTally (x ∷ xs) (y ∷ ys)
    → Sorted f (x ∷ xs)
    → Sorted f (y ∷ ys)
    → Distinct f (x ∷ xs)
    → x ≡ y
same_head f x y xs ys same sx sy d =
    let hy : Has y (x ∷ xs) = has_of_tally y (x ∷ xs) (ground (arith, same y)) in
    let hx : Has x (y ∷ ys) = has_of_tally x (y ∷ ys) (ground (arith, same x)) in
    elim (head_least f x xs sx y hy) [
      | inl e ↦ e
      | inr e ↦ elim (head_least f y ys sy x hx) [
        | inl g ↦ sym g
        | inr g ↦ d x y (inl refl) hy (name_leb-antisym (f x) (f y) e g)
      ]
    ]

-- A sorted list is determined by its members, if their names differ.
pub sorted_unique :
    (f : ℕ → Bytes) (xs ys : List ℕ)
    → SameTally xs ys
    → Sorted f xs
    → Sorted f ys
    → Distinct f xs
    → xs ≡ ys
sorted_unique f [] [] same sx sy d = refl
sorted_unique f [] (y ∷ ys) same sx sy d = ground (arith, same y)
sorted_unique f (x ∷ xs) [] same sx sy d = ground (arith, same x)
sorted_unique f (x ∷ xs) (y ∷ ys) same sx sy d =
    let e : x ≡ y = same_head f x y xs ys same sx sy d in
    λ i.
      e i
      ∷ sorted_unique f xs ys (λ k. ground (arith, same k)) sx.1 sy.1
          (λ j k hj hk. d j k (inr hj) (inr hk)) i

tally_of_has : (k : ℕ) (xs : List ℕ) → Has k xs → 1 ≤ tally k xs
tally_of_has k (x ∷ xs) (inl e) = ground (arith, e)
tally_of_has k (x ∷ xs) (inr h) = ground (arith, tally_of_has k xs h)
tally_of_has k [] h = absurd h

pub has_transfer : (xs ys : List ℕ) → SameTally xs ys → (k : ℕ) → Has k xs → Has k ys
has_transfer xs ys same k h = has_of_tally k ys (subst (λ n. 1 ≤ n) (same k) (tally_of_has k xs h))

-- Both panic, or both return the same numbers.
abbrev pub Agree : Option (List ℕ) → Option (List ℕ) → Type 0
Agree none none = Unit
Agree none (some ys) = ⊥
Agree (some xs) none = ⊥
Agree (some xs) (some ys) = SameTally xs ys

Agree-trans : (o p q : Option (List ℕ)) → Agree o p → Agree p q → Agree o q
Agree-trans none none none h k = tt
Agree-trans none none (some zs) h k = k
Agree-trans none (some ys) q h k = absurd h
Agree-trans (some xs) none q h k = absurd h
Agree-trans (some xs) (some ys) none h k = k
Agree-trans (some xs) (some ys) (some zs) h k = λ j. h j ∙ k j

abbrev pub with_first : Option (ℕ × Bool) → Option (List ℕ) → Option (List ℕ)
with_first first others = do r ← first; rest ← others; some (if r.1 then r.0 ∷ rest else rest)

with_first-Agree :
    (r : Option (ℕ × Bool)) (o p : Option (List ℕ))
    → Agree o p
    → Agree (with_first r o) (with_first r p)
with_first-Agree none o p h = tt
with_first-Agree (some r) none none h = tt
with_first-Agree (some r) none (some ys) h = h
with_first-Agree (some r) (some xs) none h = h
with_first-Agree (some (k, true)) (some xs) (some ys) h = λ j. ground (arith, h j)
with_first-Agree (some (k, false)) (some xs) (some ys) h = h

two_first-Agree :
    (r s : Option (ℕ × Bool)) (o : Option (List ℕ))
    → Agree (with_first r (with_first s o)) (with_first s (with_first r o))
two_first-Agree none none o = tt
two_first-Agree none (some s) none = tt
two_first-Agree none (some s) (some xs) = tt
two_first-Agree (some r) none none = tt
two_first-Agree (some r) none (some xs) = tt
two_first-Agree (some r) (some s) none = tt
two_first-Agree (some (k, true)) (some (l, true)) (some xs) = λ j. omega arith
two_first-Agree (some (k, true)) (some (l, false)) (some xs) = λ j. refl
two_first-Agree (some (k, false)) (some (l, true)) (some xs) = λ j. refl
two_first-Agree (some (k, false)) (some (l, false)) (some xs) = λ j. refl

Agree-refl : (o : Option (List ℕ)) → Agree o o
Agree-refl none = tt
Agree-refl (some xs) = λ k. refl

pub filter_all-Agree :
    (f : ℕ → Option (ℕ × Bool)) {xs ys : List ℕ}
    → Permᴰ xs ys
    → Agree (filter_all f xs) (filter_all f ys)
filter_all-Agree f Permᴰ.nil = λ k. refl
filter_all-Agree f (Permᴰ.cons {a = a} {b = b} {l₁ = xs} {l₂ = ys} e d) =
    subst (λ c. Agree (with_first (f a) (filter_all f xs)) (with_first (f c) (filter_all f ys))) e
      (with_first-Agree (f a) (filter_all f xs) (filter_all f ys) (filter_all-Agree f d))
filter_all-Agree f (Permᴰ.swap {a = a} {b = b} {l = xs} e g) =
    subst
      (λ (c : ℕ × ℕ).
        Agree (with_first (f a) (with_first (f b) (filter_all f xs)))
          (with_first (f c.0) (with_first (f c.1) (filter_all f xs))))
      (λ i. (g i, e i)) (two_first-Agree (f a) (f b) (filter_all f xs))
filter_all-Agree f (Permᴰ.trans {l₁ = xs} {l₂ = ys} {l₃ = zs} d g) =
    Agree-trans (filter_all f xs) (filter_all f ys) (filter_all f zs) (filter_all-Agree f d)
      (filter_all-Agree f g)
