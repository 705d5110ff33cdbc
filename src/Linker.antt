-- ===== src/Linker.antt =====
-- internal/linker/linker.go: late binding of promises to artifacts over the compiled documents.
-- A promise is known by a number; `PromiseInfo` is what its methods return before the linking, and
-- `Bindings` which promises are assigned and to what. A document's source is under its location.
pub mod Chain
pub mod Progress
pub mod Fixpoint
pub mod Order
pub mod Reports
pub mod Lists
use go_asyncapi.Common.{
  ℕ, zero, suc, ◌+◌, ◌≡◌, Bool, true, false, ◌&&◌, not, Option, none, some, List, [], ◌∷◌, ◌++◌,
  Bytes, if◌then◌else◌, ◌==◌, bytes_eq, keep, eqb,
}
use go_asyncapi.Common.GoMap.{lookup}
use go_asyncapi.Jsonpointer.{UrlPackage, JsonPointer, parse, location}
use go_asyncapi.Jsonpointer.Order.{match_pointer}

-- common.PromiseOrigin is an integer with two named values.
pub data PromiseOrigin : Type 0 where
  origin_ref origin_internal origin_unknown : PromiseOrigin

-- What the type switch of resolvePromise tells apart. An artifact of a document carries its
-- pointer; one that is a promise too (a $ref, say) has the promise's number.
pub data Artifact : Type 0 where
  plain : ℕ → List Bytes → Artifact
  object_promise : ℕ → List Bytes → Artifact
  list_promise : ℕ → List Bytes → Artifact

abbrev pub artifact_pointer : Artifact → List Bytes
artifact_pointer (plain n ptr) = ptr
artifact_pointer (object_promise p ptr) = ptr
artifact_pointer (list_promise p ptr) = ptr

-- `accepts` says whether Assign takes the artifact; on one of another type it panics.
pub record PromiseInfo : Type 0 where
  pub ref : Bytes
  pub origin : PromiseOrigin
  pub find_callback : Option (Artifact → Bool)
  pub accepts : Artifact → Bool

pub record ObjectSource : Type 0 where
  pub artifacts : List Artifact
  pub promises : List ℕ

abbrev pub Bindings : Type 0
Bindings = ℕ → Option Artifact

abbrev pub bind : Bindings → ℕ → Artifact → Bindings
bind st p a q = if eqb p q then some a else st q

-- A call may panic; the model's fuel may also run out, which Progress excludes.
pub data Outcome {ℓ} (A : Type ℓ) : Type ℓ where
  returned : A → Outcome A
  panicked : Outcome A
  out_of_fuel : Outcome A

infixl 5 ◌>>=◌
abbrev pub ◌>>=◌ {ℓ κ} : {A : Type ℓ} {B : Type κ} → Outcome A → (A → Outcome B) → Outcome B
returned a >>= f = f a
panicked >>= f = panicked
out_of_fuel >>= f = out_of_fuel

-- The artifacts that a promise may stand for, before they are counted.
pub data Search : Type 0 where
  bad_ref : Search
  no_document : Search
  found : List Artifact → Bytes → Search

-- What the filtered artifacts lead to: the panics, no compiled document, an artifact that is no
-- promise, or another promise and its document.
pub data Target : Type 0 where
  refused : Target
  absent : Target
  final : Artifact → Target
  another : ℕ → Bytes → Target

unfoldable pub single_target : Search → Target
single_target bad_ref = refused
single_target no_document = absent
single_target (found [] target) = refused
single_target (found (plain n ptr ∷ []) target) = final (plain n ptr)
single_target (found (object_promise q ptr ∷ []) target) = another q target
single_target (found (list_promise q ptr ∷ []) target) = refused
single_target (found (a ∷ b ∷ more) target) = refused

abbrev pub known_origin : PromiseOrigin → Bool
known_origin origin_ref = true
known_origin origin_internal = true
known_origin origin_unknown = false

module _ (net : UrlPackage) (info : ℕ → PromiseInfo) (sources : List (Bytes × ObjectSource)) where
  abbrev pub callback : ℕ → JsonPointer → Artifact → Bool
  callback p r a = elim (info p).find_callback [
    | some cb ↦ cb a
    | none ↦ match_pointer r (artifact_pointer a)
  ]

  -- From the call of Parse up to the filtering.
  unfoldable pub search_target : ℕ → Bytes → Search
  search_target p doc = elim (parse net (info p).ref) [
    | none ↦ bad_ref
    | some r ↦
        let target = if location net r == [] then doc else location net r in
        elim (lookup target sources) [
          | none ↦ no_document
          | some src ↦ found (keep (callback p r) src.artifacts) target
        ]
  ]

  unfoldable pub next_target : ℕ → Bytes → Target
  unfolding search_target
  next_target p doc = single_target (search_target p doc)

  -- The artifact, or `none` where the promise is postponed.
  unfoldable pub resolve_promise : ℕ → Bindings → ℕ → Bytes → Outcome (Option Artifact)
  resolve_promise zero st p doc = out_of_fuel
  resolve_promise (suc fuel) st p doc = elim (next_target p doc) [
    | refused ↦ panicked
    | absent ↦ returned none
    | final a ↦ returned (some a)
    | another q target ↦ elim (st q) [
      | none ↦ returned none
      | some _ ↦ resolve_promise fuel st q target
    ]
  ]

  -- The state of the loop: the bindings, and the promises assigned in this round.
  abbrev pub assign : ℕ → Bindings × ℕ → Option Artifact → Outcome (Bindings × ℕ)
  assign p (st, n) none = returned (st, n)
  assign p (st, n) (some a) =
      if known_origin (info p).origin && (info p).accepts a
      then returned (bind st p a, n + 1)
      else panicked

  unfoldable pub visit : ℕ → Bytes × ℕ → Bindings × ℕ → Outcome (Bindings × ℕ)
  visit fuel (doc, p) (st, n) = elim (st p) [
    | some _ ↦ returned (st, n)
    | none ↦ resolve_promise fuel st p doc >>= assign p (st, n)
  ]

  -- One round: every promise of every document. Go leaves the order of documents open, so the list
  -- is an argument.
  unfoldable pub round : ℕ → List (Bytes × ℕ) → Bindings × ℕ → Outcome (Bindings × ℕ)
  round fuel [] s = returned s
  round fuel (w ∷ ws) s = visit fuel w s >>= round fuel ws

  -- ResolvePromises: rounds until one assigns nothing; each may go in another order.
  unfoldable pub resolve_promises : ℕ → ℕ → (ℕ → List (Bytes × ℕ)) → ℕ → Bindings → Outcome Bindings
  resolve_promises zero fuel orders i st = out_of_fuel
  resolve_promises (suc rounds) fuel orders i st = round fuel (orders i) (st, 0) >>= λ s.
      elim (eqb s.1 0) [
        | true ↦ returned s.0
        | false ↦ resolve_promises rounds fuel orders (suc i) s.0
      ]
