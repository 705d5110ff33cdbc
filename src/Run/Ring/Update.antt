-- ===== src/Run/Ring/Update.antt =====
-- Append and Remove of run/ring.go keep the ring valid.
use mathlib.Core.List.{cons-ne-nil}
use mathlib.Core.Path.{subst}
use go_asyncapi.Common.{
  if_keeps, ℕ, suc, ◌<◌, ◌≡◌, ◌≢◌, ◌∙◌, refl, sym, ap, true, false, Option, none, some, List, [],
  ◌∷◌, ◌++◌, ◌==◌, nat_eq, if◌then◌else◌, All, All-append, arith, inl, inr, Bool-cases, false_of_ne,
  ==_iff, eqb, append_assoc,
}
use go_asyncapi.Common.GoMap.{delete}
use go_asyncapi.Run.Ring.{Ring, front, next_of, or_else, is_at, remove_from, append, remove}
use go_asyncapi.Run.Ring.Invariant.{
  IsValid, Absent, Distinct, Split, wrap, wrap-IsValid, Distinct-Absent, Distinct-rest,
  next_of-append,
}

module _ {T : Type 0} where
  append-Absent :
      (xs : List (ℕ × T)) (n : ℕ) (i : ℕ) (v : T)
      → Absent i xs
      → n ≢ i
      → Absent i (xs ++ (n, v) ∷ [])
  append-Absent xs n i v a h = All-append (λ x. x.0 ≢ i) xs ((n, v) ∷ []) a (h, tt)

  append-Distinct :
      (xs : List (ℕ × T)) (n : ℕ) (v : T)
      → All (λ x. x.0 < n) xs
      → Distinct xs
      → Distinct (xs ++ (n, v) ∷ [])
  append-Distinct [] n v u d = (tt, tt)
  append-Distinct (x ∷ xs) n v (h, u) (a, d) =
      (append-Absent xs n x.0 v a (λ p. omega (arith, h, p)), append-Distinct xs n v u d)

  append-used :
      (xs : List (ℕ × T)) (n : ℕ) (v : T)
      → All (λ x. x.0 < n) xs
      → All (λ x. x.0 < suc n) (xs ++ (n, v) ∷ [])
  append-used [] n v u = (omega arith, tt)
  append-used (x ∷ xs) n v (h, u) = (omega (arith, h), append-used xs n v u)

  append-Split :
      (i : Option ℕ) (before rest : List (ℕ × T)) (n : ℕ) (v : T)
      → Split i before rest
      → Split (or_else i (some n)) before (rest ++ (n, v) ∷ [])
  append-Split none before [] n v h = refl
  append-Split none before (x ∷ rest) n v h = absurd h
  append-Split (some e) before [] n v h = absurd h
  append-Split (some e) before (x ∷ rest) n v h = h

  -- Append puts the value in a new element at the end and keeps the iterator's element, or makes
  -- the new element the iterator's where the ring was empty; the ring stays valid.
  pub append-IsValid :
      (r : Ring T) (before rest : List (ℕ × T)) (item : T)
      → IsValid r before rest
      → IsValid (append item r).1 before (rest ++ ((append item r).0, item) ∷ [])
  unfolding append
  append-IsValid r before rest item v = record {
    whole =
        ap (λ xs. xs ++ (r.fresh, item) ∷ []) v.whole
        ∙ append_assoc before rest ((r.fresh, item) ∷ []);
    at_iter = append-Split r.iter before rest r.fresh item v.at_iter;
    distinct = append-Distinct r.elements r.fresh item v.used v.distinct;
    used = append-used r.elements r.fresh item v.used;
  }

  delete-append : (e : ℕ) (xs ys : List (ℕ × T)) → delete e (xs ++ ys) ≡ delete e xs ++ delete e ys
  unfolding delete
  delete-append e [] ys = refl
  delete-append e (x ∷ xs) ys = ground (arith, delete-append e xs ys)

  delete-Absent : (e : ℕ) (xs : List (ℕ × T)) → Absent e xs → delete e xs ≡ xs
  unfolding delete
  delete-Absent e [] a = refl
  delete-Absent e (x ∷ xs) (h, a) =
      rw (false_of_ne x.0 e h) (ap (λ ys. x ∷ ys) (delete-Absent e xs a))

  delete-All : (P : ℕ × T → Type 0) (e : ℕ) (xs : List (ℕ × T)) → All P xs → All P (delete e xs)
  unfolding delete
  delete-All P e [] h = tt
  delete-All P e (x ∷ xs) (h, hs) =
      if_keeps (All P) (x.0 == e) (delete-All P e xs hs) (h, delete-All P e xs hs)

  delete-Distinct : (e : ℕ) (xs : List (ℕ × T)) → Distinct xs → Distinct (delete e xs)
  unfolding delete
  delete-Distinct e [] d = tt
  delete-Distinct e (x ∷ xs) (a, d) =
      if_keeps Distinct (x.0 == e) (delete-Distinct e xs d)
        (delete-All (λ y. y.0 ≢ x.0) e xs a, delete-Distinct e xs d)

  -- Where the iterator is after the element is gone, before going back to the start.
  moved_front :
      (e : ℕ) (i : Option ℕ) (elements before rest : List (ℕ × T))
      → elements ≡ before ++ rest
      → Distinct (before ++ rest)
      → Split i before rest
      → (if is_at i e then next_of e elements else i) ≡ front (delete e rest)
  unfolding delete
  moved_front e none elements before [] h d s = refl
  moved_front e none elements before (x ∷ rest) h d s = absurd s
  moved_front e (some i) elements before [] h d s = absurd s
  moved_front e (some i) elements before (x ∷ rest) h d s = elim (Bool-cases (eqb i e)) [
    | inl p ↦
        let at : x.0 ≡ e = s ∙ (==_iff i e).0 p in
        let here : eqb x.0 e ≡ true = (==_iff x.0 e).1 at in
        let gone = subst (λ n. Absent n rest) at (Distinct-rest before rest x d) in
        rw (p, here)
          (ap (next_of e) h
            ∙ ap (λ n. next_of n (before ++ x ∷ rest)) (sym at)
            ∙ next_of-append before rest x (Distinct-Absent before rest x d)
            ∙ ap front (sym (delete-Absent e rest gone)))
    | inr p ↦
        let other : eqb x.0 e ≡ false = ground (arith, p, s) in rw (p, other) (ap some (sym s))
  ]

  remove_from-IsValid :
      (r : Ring T) (before rest : List (ℕ × T)) (e : ℕ) (elements : List (ℕ × T))
      → elements ≡ r.elements
      → IsValid r before rest
      → IsValid
          (remove_from r e elements)
          (wrap (delete e before) (delete e rest)).0
          (wrap (delete e before) (delete e rest)).1
  unfolding delete
  remove_from-IsValid r [] [] e [] h v = v
  remove_from-IsValid r [] (x ∷ rest) e [] h v = absurd (cons-ne-nil x rest (sym (h ∙ v.whole)))
  remove_from-IsValid r (x ∷ before) rest e [] h v =
      absurd (cons-ne-nil x (before ++ rest) (sym (h ∙ v.whole)))
  remove_from-IsValid r before rest e (y ∷ ys) h v =
      let moved = (if is_at r.iter e then next_of e r.elements else r.iter) in
      let after : Ring T = record r {
        iter = or_else moved (front (delete e r.elements));
        elements = delete e r.elements;
      } in
      let whole : delete e r.elements ≡ delete e before ++ delete e rest =
        ap (delete e) v.whole ∙ delete-append e before rest in
      wrap-IsValid after (delete e before) (delete e rest) whole
        (ap (λ o. or_else o (front (delete e r.elements)))
            (moved_front e r.iter r.elements before rest v.whole (subst Distinct v.whole v.distinct)
              v.at_iter)
          ∙ ap (λ xs. or_else (front (delete e rest)) (front xs)) whole)
        (delete-Distinct e r.elements v.distinct)
        (delete-All (λ x. x.0 < r.fresh) e r.elements v.used)

  -- Remove takes the element out, whether before the iterator or after it; where it is the
  -- iterator's, the iterator moves on, from the last to the first. The ring stays valid, and an
  -- element that is not in the list, or no longer, changes nothing.
  pub remove-IsValid :
      (r : Ring T) (before rest : List (ℕ × T)) (e : ℕ)
      → IsValid r before rest
      → IsValid
          (remove (some e) r)
          (wrap (delete e before) (delete e rest)).0
          (wrap (delete e before) (delete e rest)).1
  unfolding remove
  remove-IsValid r before rest e v = remove_from-IsValid r before rest e r.elements refl v
