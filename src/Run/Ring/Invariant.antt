-- ===== src/Run/Ring/Invariant.antt =====
-- The ring of run/ring.go as a queue: what a valid ring is, and what its methods do to it.
use mathlib.Core.Path.{subst}
use go_asyncapi.Common.{
  ℕ, ◌<◌, ◌≡◌, ◌≢◌, ◌∙◌, refl, sym, ap, Option, none, some, List, [], ◌∷◌, ◌++◌, nat_eq, All,
  eq_refl, false_of_ne, append_assoc, append-nil,
}
use go_asyncapi.Common.GoMap.{lookup}
use go_asyncapi.Run.Ring.{Ring, front, next_of, or_else, next_from, new_ring, next}

module _ {T : Type 0} where
  -- No element of the list is the given one.
  abbrev pub Absent : ℕ → List (ℕ × T) → Type 0
  Absent e = All (λ x. x.0 ≢ e)

  abbrev pub Distinct : List (ℕ × T) → Type 0
  Distinct [] = Unit
  Distinct (x ∷ xs) = Absent x.0 xs × Distinct xs

  -- The elements before the iterator, and those from it on; all are before it if it is nil.
  abbrev pub Split : Option ℕ → List (ℕ × T) → List (ℕ × T) → Type 0
  Split none before [] = before ≡ []
  Split none before (x ∷ rest) = ⊥
  Split (some e) before [] = ⊥
  Split (some e) before (x ∷ rest) = x.0 ≡ e

  -- The iterator is at an element, or the list is empty; the elements are distinct and in use.
  pub record IsValid (r : Ring T) (before rest : List (ℕ × T)) : Type 0 where
    pub whole : r.elements ≡ before ++ rest
    pub at_iter : Split r.iter before rest
    pub distinct : Distinct r.elements
    pub used : All (λ x. x.0 < r.fresh) r.elements

  -- Where nothing is left, the iterator goes back to the start.
  abbrev pub wrap : List (ℕ × T) → List (ℕ × T) → List (ℕ × T) × List (ℕ × T)
  wrap before [] = ([], before)
  wrap before (x ∷ rest) = (before, x ∷ rest)

  pub wrap-whole :
      (before rest : List (ℕ × T)) → before ++ rest ≡ (wrap before rest).0 ++ (wrap before rest).1
  wrap-whole before [] = append-nil before
  wrap-whole before (x ∷ rest) = refl

  pub front-Split : (xs : List (ℕ × T)) → Split (front xs) [] xs
  front-Split [] = refl
  front-Split (x ∷ xs) = refl

  wrap-Split :
      (before rest : List (ℕ × T))
      → Split
          (or_else (front rest) (front (before ++ rest)))
          (wrap before rest).0
          (wrap before rest).1
  wrap-Split before [] = rw (append-nil before) (front-Split before)
  wrap-Split before (x ∷ rest) = refl

  pub wrap-IsValid :
      (r : Ring T) (before rest : List (ℕ × T))
      → r.elements ≡ before ++ rest
      → r.iter ≡ or_else (front rest) (front (before ++ rest))
      → Distinct r.elements
      → All (λ x. x.0 < r.fresh) r.elements
      → IsValid r (wrap before rest).0 (wrap before rest).1
  wrap-IsValid r before rest h i d u = record {
    whole = h ∙ wrap-whole before rest;
    at_iter = rw i (wrap-Split before rest);
    distinct = d;
    used = u;
  }

  apart_in :
      (i : ℕ) (before rest : List (ℕ × T)) (x : ℕ × T) → Absent i (before ++ x ∷ rest) → i ≢ x.0
  apart_in i [] rest x (h, a) p = h (sym p)
  apart_in i (y ∷ before) rest x (h, a) p = apart_in i before rest x a p

  pub Distinct-Absent :
      (before rest : List (ℕ × T)) (x : ℕ × T) → Distinct (before ++ x ∷ rest) → Absent x.0 before
  Distinct-Absent [] rest x d = tt
  Distinct-Absent (y ∷ before) rest x (a, d) =
      (λ p. apart_in y.0 before rest x a p, Distinct-Absent before rest x d)

  pub Distinct-rest :
      (before rest : List (ℕ × T)) (x : ℕ × T) → Distinct (before ++ x ∷ rest) → Absent x.0 rest
  Distinct-rest [] rest x (a, d) = a
  Distinct-rest (y ∷ before) rest x (a, d) = Distinct-rest before rest x d

  pub next_of-append :
      (before rest : List (ℕ × T)) (x : ℕ × T)
      → Absent x.0 before
      → next_of x.0 (before ++ x ∷ rest) ≡ front rest
  next_of-append [] rest x a = rw (eq_refl x.0) refl
  next_of-append (y ∷ before) rest x (h, a) =
      rw (false_of_ne y.0 x.0 h) (next_of-append before rest x a)

  lookup-append :
      (before rest : List (ℕ × T)) (x : ℕ × T)
      → Absent x.0 before
      → lookup x.0 (before ++ x ∷ rest) ≡ some x.1
  unfolding lookup
  lookup-append [] rest x a = rw (eq_refl x.0) refl
  lookup-append (y ∷ before) rest x (h, a) =
      rw (false_of_ne y.0 x.0 h) (lookup-append before rest x a)

  -- The iterator is at the first of the rest.
  pub iter-front :
      (i : Option ℕ) (before rest : List (ℕ × T)) → Split i before rest → i ≡ front rest
  iter-front none before [] h = refl
  iter-front none before (x ∷ rest) h = absurd h
  iter-front (some e) before [] h = absurd h
  iter-front (some e) before (x ∷ rest) h = ap some (sym h)

  pub new_ring-IsValid : IsValid (new_ring {T = T}) [] []
  unfolding new_ring
  new_ring-IsValid = record { whole = refl; at_iter = refl; distinct = tt; used = tt }

  pub next_lem :
      (r : Ring T) (before rest : List (ℕ × T)) (x : ℕ × T)
      → IsValid r before (x ∷ rest)
      → next r ≡ (some x.1, record r { iter = or_else (front rest) (front r.elements) })
  unfolding next
  next_lem r before rest x v =
      let a = Distinct-Absent before rest x (subst Distinct v.whole v.distinct) in
      ap (next_from r) (iter-front r.iter before (x ∷ rest) v.at_iter)
      ∙ ap (λ o. (o, record r { iter = or_else (next_of x.0 r.elements) (front r.elements) }))
          (ap (lookup x.0) v.whole ∙ lookup-append before rest x a)
      ∙ ap (λ o. (some x.1, record r { iter = or_else o (front r.elements) }))
          (ap (next_of x.0) v.whole ∙ next_of-append before rest x a)

  -- Next on a ring that is not empty returns the value of the element at the iterator, and moves
  -- on by one element, from the last to the first; the ring stays valid.
  pub next-IsValid :
      (r : Ring T) (before rest : List (ℕ × T)) (x : ℕ × T)
      → IsValid r before (x ∷ rest)
      → ((next r).0 ≡ some x.1)
        × IsValid (next r).1 (wrap (before ++ x ∷ []) rest).0 (wrap (before ++ x ∷ []) rest).1
  next-IsValid r before rest x v =
      let whole : r.elements ≡ (before ++ x ∷ []) ++ rest =
        v.whole ∙ sym (append_assoc before (x ∷ []) rest) in
      let after : Ring T = record r { iter = or_else (front rest) (front r.elements) } in
      subst
        (λ p.
          (p.0 ≡ some x.1)
          × IsValid p.1 (wrap (before ++ x ∷ []) rest).0 (wrap (before ++ x ∷ []) rest).1)
        (sym (next_lem r before rest x v))
        (
          refl,
          wrap-IsValid after (before ++ x ∷ []) rest whole
              (ap (λ xs. or_else (front rest) (front xs)) whole) v.distinct v.used,
        )
