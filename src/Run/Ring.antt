-- ===== src/Run/Ring.antt =====
-- The ring of run/ring.go over a linked list of container/list. An element is known by a number,
-- its address; `fresh` is the next address that is not in use. Each method holds the mutex, so
-- methods do not interleave.

pub mod Invariant
pub mod Update
pub mod Cycle
use go_asyncapi.Common.{
  ℕ, zero, suc, ◌≡◌, Bool, true, false, Option, none, some, List, [], ◌∷◌, ◌++◌, ◌==◌, nat_eq,
  if◌then◌else◌, length,
}
use go_asyncapi.Common.GoMap.{lookup, delete}

pub record Ring (T : Type 0) : Type 0 where
  pub iter : Option ℕ
  pub elements : List (ℕ × T)
  pub fresh : ℕ

-- The second where the first is nil.
abbrev pub or_else : Option ℕ → Option ℕ → Option ℕ
or_else none b = b
or_else (some i) b = some i

abbrev pub is_at : Option ℕ → ℕ → Bool
is_at none e = false
is_at (some i) e = i == e

module _ {T : Type 0} where
  -- items.Front()
  abbrev pub front : List (ℕ × T) → Option ℕ
  front [] = none
  front ((i, x) ∷ xs) = some i

  -- element.Next()
  abbrev pub next_of : ℕ → List (ℕ × T) → Option ℕ
  next_of e [] = none
  next_of e ((i, x) ∷ xs) = let rest = next_of e xs in if i == e then front xs else rest

  unfoldable pub new_ring : Ring T
  new_ring = record { iter = none; elements = []; fresh = 0 }

  abbrev pub next_from : Ring T → Option ℕ → Option T × Ring T
  next_from r none = (none, r)
  next_from r (some e) =
      (lookup e r.elements, record r { iter = or_else (next_of e r.elements) (front r.elements) })

  -- The value, if there is one, and the ring afterwards.
  unfoldable pub next : Ring T → Option T × Ring T
  next r = next_from r r.iter

  -- The element that is returned, and the ring.
  unfoldable pub append : T → Ring T → ℕ × Ring T
  append item r = (
    r.fresh,
    record {
      iter = or_else r.iter (some r.fresh);
      elements = r.elements ++ (r.fresh, item) ∷ [];
      fresh = suc r.fresh;
    },
  )

  -- The body after the test for an empty list.
  abbrev pub remove_from : Ring T → ℕ → List (ℕ × T) → Ring T
  remove_from r e [] = r
  remove_from r e (x ∷ xs) =
      let moved = (if is_at r.iter e then next_of e r.elements else r.iter) in
      let rest = delete e r.elements in
      record r { iter = or_else moved (front rest); elements = rest }

  -- A nil element and an element that is no longer in the list change nothing.
  unfoldable pub remove : Option ℕ → Ring T → Ring T
  remove none r = r
  remove (some e) r = remove_from r e r.elements

  unfoldable pub ring_len : Ring T → ℕ
  ring_len r = length r.elements
