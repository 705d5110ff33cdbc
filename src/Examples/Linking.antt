-- ===== src/Examples/Linking.antt =====
-- The linker of internal/linker on one document: an artifact `a`, the promises `b` to `a` and 1 to
-- `b`, and the promise `c` to itself.
use go_asyncapi.Common.{
  Bool, true, false, some, none, keep, zero, suc, ℕ, ◌≡◌, ◌≢◌, ◌↔◌, refl, inl, inr, List, [], ◌∷◌,
  Bytes, codes, All, arith, list_beq, bytes_eq, ◌==◌, ==_iff, Bool-cases,
}
use mathlib.Core.Path.{subst}
use mathlib.Core.Option.{some_inj}
use go_asyncapi.Common.GoMap.{lookup}
use go_asyncapi.Common.Strings.{split, has_prefix}
use go_asyncapi.Jsonpointer.{UrlPackage, parse, parse_reference, location, is_local}
use go_asyncapi.Jsonpointer.Escape.{path_unescape}
use go_asyncapi.Jsonpointer.Order.{match_pointer, compare_parts, compare_bytes}
use go_asyncapi.Linker.{
  Artifact, plain, object_promise, PromiseInfo, ObjectSource, Bindings, bind, returned, out_of_fuel,
  another, origin_ref, resolve_promises, round, visit, resolve_promise, next_target, search_target,
  single_target, list_promise,
}
use go_asyncapi.Linker.Chain.{Reaches, next}
use go_asyncapi.Linker.Order.{
  InDocument, IsSchedule, unassigned, resolve_promises-ends, resolve_promises-exact,
  loop_stays_unassigned, resolve_promises-order_irrelevant,
}
use go_asyncapi.Linker.Lists.{ListBindings, resolve_list_promises, resolve_list_promises-exact}

abbrev net : UrlPackage
net = record { url_parse = λ s. none; url_string = λ u. u.path; trim_space = λ s. s }

abbrev doc : Bytes
doc = codes "d"

abbrev reference : ℕ → Bytes
reference zero = codes "#/a"
reference (suc zero) = codes "#/b"
reference (suc (suc n)) = codes "#/c"

abbrev info : ℕ → PromiseInfo
info p = record {
  ref = reference p;
  origin = origin_ref;
  find_callback = none;
  accepts = λ a. true;
}

abbrev target : Artifact
target = plain 5 (codes "a" ∷ [])

abbrev source : ObjectSource
source = record {
  artifacts = target ∷ object_promise 0 (codes "b" ∷ []) ∷ object_promise 2 (codes "c" ∷ []) ∷ [];
  promises = 0 ∷ 1 ∷ 2 ∷ [];
}

abbrev sources : List (Bytes × ObjectSource)
sources = (doc, source) ∷ []

abbrev home : ℕ → Bytes
home p = doc

abbrev work : List (Bytes × ℕ)
work = (doc, 0) ∷ (doc, 1) ∷ (doc, 2) ∷ []

abbrev backwards : List (Bytes × ℕ)
backwards = (doc, 2) ∷ (doc, 1) ∷ (doc, 0) ∷ []

abbrev linked : Bindings
linked = bind (bind unassigned 0 target) 1 target

runs : resolve_promises net info sources 4 4 (λ r. work) 0 unassigned ≡ returned linked
unfolding resolve_promises round visit resolve_promise next_target search_target single_target parse
    parse_reference match_pointer compare_parts compare_bytes path_unescape split has_prefix lookup
    location is_local list_beq
runs = refl

runs_backwards :
    resolve_promises net info sources 4 4 (λ r. backwards) 0 unassigned
    ≡ returned (bind (bind unassigned 0 target) 1 target)
unfolding resolve_promises round visit resolve_promise next_target search_target single_target parse
    parse_reference match_pointer compare_parts compare_bytes path_unescape split has_prefix lookup
    location is_local list_beq
runs_backwards = refl

registered :
    (d : Bytes) (src : ObjectSource)
    → lookup d sources ≡ some src
    → All (InDocument home work d) src.artifacts
unfolding lookup
registered d src h = elim (Bool-cases (doc == d)) [
  | inl q ↦
      let e : doc ≡ d = (==_iff doc d).0 q in
      subst (λ s. All (InDocument home work d) s.artifacts) (some_inj.0 (rw q at h))
        (tt, ((e, inl refl), ((e, inr (inr (inl refl))), tt)))
  | inr q ↦ cc (rw q at h)
]

in_order : IsSchedule home work (λ r. work)
in_order r =
    (((refl, inl refl), ((refl, inr (inl refl)), ((refl, inr (inr (inl refl))), tt))), λ w h. h)

reversed : IsSchedule home work (λ r. backwards)
reversed r = (
  ((refl, inr (inr (inl refl))), ((refl, inr (inl refl)), ((refl, inl refl), tt))),
  λ w h. elim h [
    | inl e ↦ inr (inr (inl e))
    | inr (inl e) ↦ inr (inl e)
    | inr (inr (inl e)) ↦ inl e
    | inr (inr (inr k)) ↦ absurd k
  ],
)

resolve_promises-ends_example :
    resolve_promises net info sources 4 4 (λ r. work) 0 unassigned ≢ out_of_fuel
resolve_promises-ends_example =
    resolve_promises-ends net info sources home work registered 4 3 (λ r. work) in_order
      (omega arith) (omega arith)

resolve_promises-exact_example :
    (linked 1 ≡ some target) ↔ ((k : ℕ) × Reaches net info sources k 1 doc target)
resolve_promises-exact_example =
    resolve_promises-exact net info sources home work registered 4 3 (λ r. work) in_order
      (omega arith) linked runs 1 target (inr (inl refl))

resolve_promises-order_irrelevant_example : linked 1 ≡ linked 1
resolve_promises-order_irrelevant_example =
    resolve_promises-order_irrelevant net info sources home work registered 4 4 3 3 (λ r. work)
      (λ r. backwards) linked linked in_order reversed (omega arith) (omega arith) runs
      runs_backwards 1 (inr (inl refl))

refers_to_itself : next net info sources 2 doc ≡ another 2 doc
unfolding next_target search_target single_target parse parse_reference match_pointer compare_parts
    compare_bytes path_unescape split has_prefix lookup location is_local list_beq
refers_to_itself = refl

loop_stays_unassigned_example : linked 2 ≡ none
loop_stays_unassigned_example =
    loop_stays_unassigned net info sources home work registered 4 3 (λ r. work) linked
      (λ p d. (p ≡ 2) × (d ≡ doc)) in_order (omega arith) runs
      (λ p d h. (2, doc, rw (h.0, h.1) refers_to_itself, (refl, refl))) 2 (inr (inr (inl refl)))
      (refl, refl)

-- Promise 0 selects every artifact, the others those that are no promise.
abbrev is_plain : Artifact → Bool
is_plain (plain n ptr) = true
is_plain (object_promise q ptr) = false
is_plain (list_promise q ptr) = false

abbrev select : ℕ → Artifact → Bool
select zero a = true
select (suc p) a = is_plain a

resolve_list_promises-exact_example :
    (st : ListBindings) × (resolve_list_promises
        (λ p. some (select p))
        source.artifacts
        2
        (0 ∷ 1 ∷ [])
        (λ p. none)
      ≡ returned st)
    × All (λ p. st p ≡ some (keep (select p) source.artifacts)) (0 ∷ 1 ∷ [])
resolve_list_promises-exact_example =
    resolve_list_promises-exact (λ p. some (select p)) source.artifacts select (λ p. refl) 0
      (0 ∷ 1 ∷ [])
