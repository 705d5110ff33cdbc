-- ===== src/Run/Ring/Cycle.antt =====
-- Calling Next again and again comes to every element of the ring and back (run/ring.go).
use mathlib.Core.Path.{subst}
use go_asyncapi.Common.{
  ℕ, zero, suc, ◌≡◌, ◌∙◌, refl, sym, ap, Option, some, List, [], ◌∷◌, ◌++◌, map, length, append-nil,
}
use go_asyncapi.Run.Ring.{Ring, front, or_else, next}
use go_asyncapi.Run.Ring.Invariant.{IsValid, next_lem, next-IsValid, iter-front, front-Split}

module _ {T : Type 0} where
  abbrev pub values : List (ℕ × T) → List (Option T)
  values = map (λ x. some x.1)

  -- What n calls of Next return, and the ring after them.
  abbrev pub run_next : ℕ → Ring T → List (Option T) × Ring T
  run_next zero r = ([], r)
  run_next (suc n) r = let rest = run_next n (next r).1 in ((next r).0 ∷ rest.0, rest.1)

  abbrev at : Ring T → Option ℕ → Ring T
  at r i = record r { iter = i }

  visits :
      (r : Ring T) (before : List (ℕ × T)) (x : ℕ × T) (xs ys : List (ℕ × T))
      → IsValid r before (x ∷ (xs ++ ys))
      → run_next (suc (length xs)) r
        ≡ (values (x ∷ xs), at r (or_else (front ys) (front r.elements)))
  visits r before x [] ys v = rw (next_lem r before ys x v) refl
  visits r before x (y ∷ xs) ys v =
      let r1 = at r (some y.0) in
      let v1 : IsValid r1 (before ++ x ∷ []) (y ∷ (xs ++ ys)) =
        subst (λ p. IsValid p.1 (before ++ x ∷ []) (y ∷ (xs ++ ys)))
          (next_lem r before (y ∷ (xs ++ ys)) x v) (next-IsValid r before (y ∷ (xs ++ ys)) x v).1 in
      ap (λ p. (p.0 ∷ (run_next (suc (length xs)) p.1).0, (run_next (suc (length xs)) p.1).1))
        (next_lem r before (y ∷ (xs ++ ys)) x v)
      ∙ ap (λ q. (some x.1 ∷ q.0, q.1)) (visits r1 (before ++ x ∷ []) y xs ys v1)

  at-start :
      (r : Ring T) (before rest : List (ℕ × T))
      → IsValid r before rest
      → IsValid (at r (front r.elements)) [] (before ++ rest)
  at-start r before rest v = record {
    whole = v.whole;
    at_iter = rw v.whole (front-Split (before ++ rest));
    distinct = v.distinct;
    used = v.used;
  }

  back :
      (r : Ring T) (before rest : List (ℕ × T)) (x : ℕ × T)
      → IsValid r before (x ∷ rest)
      → run_next (length before) (at r (front r.elements)) ≡ (values before, r)
  back r [] rest x v =
      ap (λ i. ([], at r i)) (ap front v.whole ∙ sym (iter-front r.iter [] (x ∷ rest) v.at_iter))
  back r (y ∷ before) rest x v =
      visits (at r (front r.elements)) [] y before (x ∷ rest) (at-start r (y ∷ before) (x ∷ rest) v)
      ∙ ap (λ i. (values (y ∷ before), at r i))
          (sym (iter-front r.iter (y ∷ before) (x ∷ rest) v.at_iter))

  -- In a ring that is not empty, as many calls of Next as there are elements from the iterator on
  -- return the values of these elements in order and lead to the first element; as many more as
  -- there are elements before the iterator return the values of those, and then the ring is as it
  -- was. So Next leaves out no element, and comes to each of them again and again.
  pub next_cycle :
      (r : Ring T) (before rest : List (ℕ × T)) (x : ℕ × T)
      → IsValid r before (x ∷ rest)
      → (run_next (length (x ∷ rest)) r ≡ (values (x ∷ rest), at r (front r.elements)))
        × (run_next (length before) (at r (front r.elements)) ≡ (values before, r))
  next_cycle r before rest x v =
      (visits r before x rest [] (rw (append-nil rest) v), back r before rest x v)
