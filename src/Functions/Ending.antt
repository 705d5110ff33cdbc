-- ===== src/Functions/Ending.antt =====
-- That generateRuntimeExpressionExtractionCode ends (internal/tmpl/functions.go).
use go_asyncapi.Common.{
  ℕ, zero, suc, ◌+◌, ◌*◌, ◌<◌, ◌≤◌, ◌≡◌, ◌≢◌, Bool, Option, none, some, List, [], ◌∷◌, ◌++◌, Bytes,
  ◌⊎◌, inl, inr, arith, length,
}
use mathlib.Core.Path.{subst}
use go_asyncapi.Names.{CasePackage}
use go_asyncapi.RenderManager.{RenderManager}
use go_asyncapi.Functions.Expressions.{
  wrapped_type, reference_type, CodeStep, StructField, unescape_fragment_part, is_empty, find_field,
  equal_fold,
}
use go_asyncapi.Functions.Extraction.{
  Extraction, extracted, extraction_panics, fuel_used_up, TypeGraph, extract, one_turn, with_step,
  extract_field, generate_extraction_code,
}
use go_asyncapi.Functions.Steps.{Turn-cases, TurnOk, one_turn-TurnOk}

abbrev Ended : {M : Type 0} → Extraction M → Type 0
Ended (extracted items e mng) = Unit
Ended extraction_panics = Unit
Ended fuel_used_up = ⊥

with_step-Ended : {M : Type 0} (s : CodeStep) (r : Extraction M) → Ended r → Ended (with_step s r)
with_step-Ended s (extracted items e mng) h = tt
with_step-Ended s extraction_panics h = tt
with_step-Ended s fuel_used_up h = h

module _ (conv : CasePackage) {O : Type 0} (graph : TypeGraph (RenderManager O)) where
  module _ (rank : ℕ → ℕ) (bound : ℕ) (bounded : (t : ℕ) → rank t ≤ bound)
      (falls : (t u : ℕ)
        → (graph.view t ≡ wrapped_type (some u)) ⊎ (graph.view t ≡ reference_type (some u))
        → rank u < rank t) where
    abbrev weight : List Bytes → ℕ
    weight [] = 0
    weight (p ∷ ps) = bound + 1 + weight ps

    weight_lem : (path : List Bytes) → weight path ≡ length path * (bound + 1)
    weight_lem [] = omega arith
    weight_lem (p ∷ ps) = omega (arith, weight_lem ps)

    extract-Ended :
        (validate : Bool) (fuel : ℕ) (mng : RenderManager O) (idx t : ℕ) (before path : List Bytes)
        → rank t + weight path < fuel
        → Ended (extract conv graph validate fuel mng idx t before path)
    unfolding extract
    extract-Ended validate zero mng idx t before path h = absurd (omega (arith, h))
    extract-Ended validate (suc fuel) mng idx t before [] h = tt
    extract-Ended validate (suc fuel) mng idx t before (p ∷ ps) h =
        let ok =
          one_turn-TurnOk conv graph validate mng idx t before (unescape_fragment_part p)
            (is_empty ps) in
        elim (Turn-cases (
          one_turn conv graph validate mng idx t before (unescape_fragment_part p) (is_empty ps))) [
            | inl (s, m, e) ↦
                rw (e, Ended, extract)
                  (with_step-Ended s
                    (extract conv graph validate fuel m (idx + 1) s.output_type (before ++ p ∷ [])
                      ps)
                    (extract-Ended validate fuel m (idx + 1) s.output_type (before ++ p ∷ []) ps
                      (omega (arith, h, bounded s.output_type))))
            | inr (inl (u, e)) ↦
                rw (e, Ended, extract)
                  (extract-Ended validate fuel mng idx u before (p ∷ ps) (
                    omega (
                      arith,
                      h,
                      falls t u (
                          subst
                            (TurnOk idx t (graph.view t) (unescape_fragment_part p) (is_empty ps)) e
                            ok),
                    )))
            | inr (inr (inl (x, e))) ↦ rw (e, Ended, extract) tt
            | inr (inr (inr e)) ↦ rw (e, Ended, extract) tt
          ]

    field-Ended :
        (fuel : ℕ) (mng : RenderManager O) (path : List Bytes) (validate : Bool)
        (found : Option StructField)
        → bound + length path * (bound + 1) < fuel
        → Ended (extract_field conv graph fuel mng path validate found)
    field-Ended fuel mng path validate none h = tt
    field-Ended fuel mng path validate (some f) h =
        extract-Ended validate fuel mng 0 f.field_type [] path
          (omega (arith, h, bounded f.field_type, weight_lem path))

    -- If the chains of wrappers and references are finite, with at most `bound` of them in a row,
    -- then the loop over the path of a runtime expression ends: with more turns than `bound` for
    -- each part of the path and once more the fuel is not used up.
    pub generate_extraction_code-ends :
        (fuel : ℕ) (mng : RenderManager O) (kind : Bytes) (path : List Bytes)
        (target_fields : List StructField) (validate : Bool)
        → bound + length path * (bound + 1) < fuel
        → generate_extraction_code conv graph fuel mng kind path target_fields validate
          ≢ fuel_used_up
    unfolding generate_extraction_code
    generate_extraction_code-ends fuel mng kind path target_fields validate h out =
        subst Ended out (
          field-Ended fuel mng path validate
            (find_field (λ g. equal_fold g.original_name kind) target_fields) h)
