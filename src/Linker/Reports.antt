-- ===== src/Linker/Reports.antt =====
-- The reports of internal/linker/linker.go. Go's map order is open where a
-- function goes over all documents, so these take the documents as a list in that order.
use go_asyncapi.Common.{
  ℕ, ◌≡◌, refl, Bool, true, false, none, some, List, [], ◌∷◌, ◌++◌, Bytes, if◌then◌else◌, All,
  Bool-cases, inl, inr, bytes_eq, ◌↔◌,
}
use mathlib.Core.List.{append-eq-nil_iff}
use go_asyncapi.Linker.{PromiseInfo, ObjectSource, Bindings}

abbrev pub is_assigned : Bindings → ℕ → Bool
is_assigned st p = elim (st p) [ none ↦ false | some a ↦ true ]

module _ (info : ℕ → PromiseInfo) (st : Bindings) where
  -- lo.FilterMap over one document's promises
  abbrev pub unresolved_of : List ℕ → List Bytes
  unresolved_of [] = []
  unresolved_of (p ∷ ps) =
      let rest = unresolved_of ps in if is_assigned st p then rest else (info p).ref ∷ rest

  -- UnresolvedPromises: the references of the unassigned promises of all documents.
  unfoldable pub unresolved_promises : List ObjectSource → List Bytes
  unresolved_promises [] = []
  unresolved_promises (src ∷ srcs) = unresolved_of src.promises ++ unresolved_promises srcs

  unresolved_of-nil :
      (ps : List ℕ)
      → (unresolved_of ps ≡ [] → All (λ p. is_assigned st p ≡ true) ps)
        × (All (λ p. is_assigned st p ≡ true) ps → unresolved_of ps ≡ [])
  unresolved_of-nil [] = (λ h. tt, λ h. refl)
  unresolved_of-nil (p ∷ ps) =
      let ih = unresolved_of-nil ps in
      elim (Bool-cases (is_assigned st p)) [
        | inl b ↦ (λ h. (b, ih.0 (rw b at h)), λ h. rw b (ih.1 h.1))
        | inr b ↦ (λ h. cc (rw b at h), λ h. cc (h.0, b))
      ]

  -- The report is empty exactly if every promise of every document is assigned.
  pub unresolved_promises-nil :
      (srcs : List ObjectSource)
      → (unresolved_promises srcs ≡ [])
        ↔ All (λ src. All (λ p. is_assigned st p ≡ true) src.promises) srcs
  unfolding unresolved_promises
  unresolved_promises-nil [] = (λ h. tt, λ h. refl)
  unresolved_promises-nil (src ∷ srcs) =
      let one = unresolved_of-nil src.promises in
      let ih = unresolved_promises-nil srcs in
      (
        λ h. let (e, f) = append-eq-nil_iff.0 h in (one.0 e, ih.0 f),
        λ h. append-eq-nil_iff.1 (one.1 h.0, ih.1 h.1),
      )
