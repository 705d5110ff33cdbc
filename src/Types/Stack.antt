-- ===== src/Types/Stack.antt =====
-- The LIFO stack of internal/types/stack.go. The list is the Go slice, bottom first, so the top is
-- the last element; a call that panics returns `none`.
use go_asyncapi.Common.{◌≡◌, refl, Option, none, some, List, [], ◌∷◌, ◌++◌, arith, ◌>>=◌}

pub record SimpleStack {ℓ} (T : Type ℓ) : Type ℓ where
  pub stack : List T

module _ {ℓ} {T : Type ℓ} where
  -- s[len(s)-1], which panics on an empty slice
  abbrev pub last : List T → Option T
  last [] = none
  last (x ∷ []) = some x
  last (x ∷ y ∷ xs) = last (y ∷ xs)

  -- s[:len(s)-1]
  abbrev pub init : List T → List T
  init [] = []
  init (x ∷ []) = []
  init (x ∷ y ∷ xs) = x ∷ init (y ∷ xs)

  unfoldable pub top : SimpleStack T → Option T
  top s = last s.stack

  unfoldable pub pop : SimpleStack T → Option (T × SimpleStack T)
  unfolding top
  pop s = do t ← top s; some (t, record { stack = init s.stack })

  unfoldable pub push : T → SimpleStack T → SimpleStack T
  push v s = record { stack = s.stack ++ v ∷ [] }

  unfoldable pub items : SimpleStack T → List T
  items s = s.stack

  unfoldable pub replace_top : T → SimpleStack T → Option (SimpleStack T)
  replace_top v s = do t ← last s.stack; some (record { stack = init s.stack ++ v ∷ [] })

  last-append : (xs : List T) (v : T) → last (xs ++ v ∷ []) ≡ some v
  last-append [] v = refl
  last-append (x ∷ []) v = refl
  last-append (x ∷ y ∷ xs) v = last-append (y ∷ xs) v

  init-append : (xs : List T) (v : T) → init (xs ++ v ∷ []) ≡ xs
  init-append [] v = refl
  init-append (x ∷ []) v = refl
  init-append (x ∷ y ∷ xs) v = rw (init-append (y ∷ xs) v)

  pub top-push : (v : T) (s : SimpleStack T) → top (push v s) ≡ some v
  unfolding top push
  top-push v s = last-append s.stack v

  -- Pop undoes Push, and returns what was pushed.
  pub pop-push : (v : T) (s : SimpleStack T) → pop (push v s) ≡ some (v, s)
  unfolding pop push
  pop-push v s = rw (last-append s.stack v, init-append s.stack v)

  -- ReplaceTop is Pop followed by Push, also in that it panics exactly when Pop does.
  pub replace_top-eq-pop-push :
      (v : T) (s : SimpleStack T) → replace_top v s ≡ (pop s >>= λ r. some (push v r.1))
  unfolding replace_top pop push
  replace_top-eq-pop-push v s = ground arith
