-- ===== src/Promise.antt =====
-- The promises of internal/render/lang/promise.go and ref.go, and common.DerefArtifact of
-- internal/common/artifact.go. An artifact is a number; a promise's type T is a test for it, and
-- reading the target of a promise that is not assigned gives `none`, the nil interface.

use go_asyncapi.Common.{
  ℕ, zero, suc, Bool, true, false, Option, none, some, List, [], ◌∷◌, ◌++◌, Bytes, map, ◌==◌,
  bytes_eq, nat_eq, if◌then◌else◌, ◌>>=◌,
}
use go_asyncapi.Linker.{PromiseOrigin, origin_ref}

pub record Promise : Type 0 where
  pub ref : Bytes
  pub origin : PromiseOrigin
  pub find_cb : Option (ℕ → Bool)
  pub assign_cb : Option (ℕ → ℕ)
  pub target : Option ℕ
  pub assigned : Bool

-- NewPromise and NewCbPromise by newPromise
unfoldable pub new_promise : Bytes → PromiseOrigin → Option (ℕ → Bool) → Option (ℕ → ℕ) → Promise
new_promise ref origin find_cb assign_cb = record {
  ref = ref;
  origin = origin;
  find_cb = find_cb;
  assign_cb = assign_cb;
  target = none;
  assigned = false;
}

abbrev pub set_target : ℕ → Promise → Promise
set_target t r = record r { target = some t; assigned = true }

-- `is_type` is the type assertion; `none` is the panic where it fails.
unfoldable pub assign : (ℕ → Bool) → ℕ → Promise → Option Promise
assign is_type obj r = elim r.assign_cb [
  | some cb ↦ some (set_target (cb obj) r)
  | none ↦ if is_type obj then some (set_target obj r) else none
]

pub record ListPromise : Type 0 where
  pub find_cb : ℕ → Bool
  pub assign_item_cb : Option (ℕ → ℕ)
  pub targets : List ℕ
  pub assigned : Bool

unfoldable pub new_list_cb_promise : (ℕ → Bool) → Option (ℕ → ℕ) → ListPromise
new_list_cb_promise find_cb assign_item_cb = record {
  find_cb = find_cb;
  assign_item_cb = assign_item_cb;
  targets = [];
  assigned = false;
}

-- The loop that appends to the targets.
abbrev pub append_targets : (ℕ → Bool) → List ℕ → List ℕ → Option (List ℕ)
append_targets is_type targets [] = some targets
append_targets is_type targets (o ∷ os) =
    let rest = append_targets is_type (targets ++ o ∷ []) os in if is_type o then rest else none

unfoldable pub assign_list : (ℕ → Bool) → List ℕ → ListPromise → Option ListPromise
assign_list is_type objs r = elim r.assign_item_cb [
  | some cb ↦ some (record r { targets = map cb objs; assigned = true })
  | none ↦ do
    targets ← append_targets is_type r.targets objs
    some (record r { targets = targets; assigned = true })
]

-- What the wrappers ask of the artifact behind them.
pub record ArtifactMethods : Type 0 where
  pub name : ℕ → Bytes
  pub selectable : ℕ → Bool
  pub visible : ℕ → Bool

abbrev pub is_ref_origin : PromiseOrigin → Bool
is_ref_origin origin_ref = true
is_ref_origin origin = false

pub record Ref : Type 0 where
  pub promise : Promise
  pub selectable : Option Bool
  pub name : Bytes

-- NewRef
unfoldable pub new_ref : Bytes → Bytes → Option Bool → Ref
unfolding new_promise
new_ref ref name selectable = record {
  promise = new_promise ref origin_ref none none;
  selectable = selectable;
  name = name;
}

module _ (methods : ArtifactMethods) where
  -- GolangTypePromise.Selectable and Visible; `none` is the panic on a nil target, which && avoids.
  unfoldable pub promise_selectable : Promise → Option Bool
  promise_selectable r =
      if is_ref_origin r.origin then (r.target >>= λ t. some (methods.selectable t)) else some false

  unfoldable pub promise_visible : Promise → Option Bool
  promise_visible r =
      if is_ref_origin r.origin then (r.target >>= λ t. some (methods.visible t)) else some false

  -- The arguments of lo.Coalesce are evaluated first, so a nil target panics also with a name.
  unfoldable pub ref_name : Ref → Option Bytes
  ref_name r = do t ← r.promise.target; some (if r.name == [] then methods.name t else r.name)

  unfoldable pub ref_selectable : Ref → Option Bool
  unfolding promise_selectable
  ref_selectable r = elim r.selectable [
    | none ↦ promise_selectable r.promise
    | some b ↦ some (if is_ref_origin r.promise.origin then b else false)
  ]

-- Unwrap of a promise is DerefArtifact of its target. `wraps` is the target of an artifact that is
-- a wrapper; `none` is fuel that ran out.
unfoldable pub deref_artifact : (ℕ → Option ℕ) → ℕ → ℕ → Option ℕ
deref_artifact wraps zero obj = none
deref_artifact wraps (suc fuel) obj = elim (wraps obj) [
  | none ↦ some obj
  | some target ↦ deref_artifact wraps fuel target
]

-- CheckSameArtifacts
unfoldable pub check_same_artifacts : (ℕ → Option ℕ) → ℕ → ℕ → ℕ → Option Bool
unfolding deref_artifact
check_same_artifacts wraps fuel a b = do
  x ← deref_artifact wraps fuel a
  y ← deref_artifact wraps fuel b
  some (x == y)
