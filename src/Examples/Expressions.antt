-- ===== src/Examples/Expressions.antt =====
-- The code for a runtime expression at a concrete message type: an array behind a wrapper.
use go_asyncapi.Common.{
  ℕ, zero, suc, ◌<◌, ◌≤◌, ◌≡◌, ◌≢◌, ◌⊎◌, inl, inr, refl, true, false, none, some, List, [], ◌∷◌,
  ◌++◌, Bytes, codes, list_beq, bytes_eq, nat_eq, arith,
}
use mathlib.Core.Path.{subst, ap}
use go_asyncapi.Common.Strings.{has_prefix}
use go_asyncapi.Jsonpointer.Escape.{path_unescape}
use go_asyncapi.Names.{CasePackage}
use go_asyncapi.RenderManager.{RenderManager, new_render_manager}
use go_asyncapi.Functions.Expressions.{
  StructField, TypeView, go_struct, go_map, other_type, go_array, go_simple, wrapped_type,
  reference_type, CodeStep, unescape_fragment_part, find_field, equal_fold, atoi,
}
use go_asyncapi.Functions.Extraction.{
  TypeGraph, extracted, fuel_used_up, generate_extraction_code, extract,
}
use go_asyncapi.Functions.Steps.{Follows, generate_extraction_code-Follows}
use go_asyncapi.Functions.Ending.{generate_extraction_code-ends}

abbrev no_case : CasePackage
no_case = record { pascal_case = λ s. s; camel_case = λ s. s; walk = λ patterns s. [] }

abbrev payload : StructField
payload = record { original_name = codes "Payload"; marshal_name = []; field_type = 0 }

abbrev ids : StructField
ids = record { original_name = codes "Ids"; marshal_name = codes "ids"; field_type = 1 }

abbrev view : ℕ → TypeView
view zero = go_struct (ids ∷ [])
view (suc zero) = wrapped_type (some 2)
view (suc (suc zero)) = go_array 3
view (suc (suc (suc n))) = go_simple

abbrev manager : RenderManager ℕ
manager = new_render_manager

abbrev graph : TypeGraph (RenderManager ℕ)
graph = record {
  quote = λ s. 34 ∷ s ++ 34 ∷ [];
  view = view;
  can_be_addressed = λ t. false;
  go_usage = λ m t. some (codes "any", m);
}

abbrev path : List Bytes
path = codes "ids" ∷ codes "7" ∷ []

abbrev steps : List CodeStep
steps =
    record {
      expression_part = codes "ids";
      lines = codes "v1 := v0.Ids" ∷ [];
      input_var = codes "v0";
      operator = codes "v0.Ids";
      output_var = codes "v1";
      output_type = 1;
    }
    ∷ record {
      expression_part = codes "7";
      lines = codes "v2 := v1[7]" ∷ [];
      input_var = codes "v1";
      operator = codes "v1[7]";
      output_var = codes "v2";
      output_type = 3;
    }
    ∷ []

code :
    generate_extraction_code no_case graph 9 manager (codes "payload") path (payload ∷ []) false
    ≡ extracted steps none manager
unfolding generate_extraction_code extract unescape_fragment_part list_beq has_prefix path_unescape
    atoi
code = refl

generate_extraction_code-Follows_example :
    (f : StructField) × (find_field
        (λ g. equal_fold g.original_name (codes "payload"))
        (payload ∷ [])
      ≡ some f)
    × Follows view 0 f.field_type path steps
generate_extraction_code-Follows_example =
    generate_extraction_code-Follows no_case graph 9 manager (codes "payload") path (payload ∷ [])
      false steps manager code

abbrev rank : ℕ → ℕ
rank zero = 0
rank (suc zero) = 1
rank (suc (suc n)) = 0

bounded : (t : ℕ) → rank t ≤ 1
bounded zero = omega arith
bounded (suc zero) = omega arith
bounded (suc (suc n)) = omega arith

abbrev inner : TypeView → ℕ
inner (wrapped_type (some n)) = n
inner (wrapped_type none) = 0
inner (go_struct fields) = 0
inner (go_map n) = 0
inner (go_array n) = 0
inner go_simple = 0
inner (reference_type t) = 0
inner other_type = 0

falls :
    (t u : ℕ)
    → (view t ≡ wrapped_type (some u)) ⊎ (view t ≡ reference_type (some u))
    → rank u < rank t
falls zero u (inl h) = absurd (cc h)
falls zero u (inr h) = absurd (cc h)
falls (suc zero) u (inl h) = subst (λ n. rank n < 1) (ap inner h) (omega arith)
falls (suc zero) u (inr h) = absurd (cc h)
falls (suc (suc zero)) u (inl h) = absurd (cc h)
falls (suc (suc zero)) u (inr h) = absurd (cc h)
falls (suc (suc (suc n))) u (inl h) = absurd (cc h)
falls (suc (suc (suc n))) u (inr h) = absurd (cc h)

generate_extraction_code-ends_example :
    generate_extraction_code no_case graph 9 manager (codes "payload") path (payload ∷ []) true
    ≢ fuel_used_up
generate_extraction_code-ends_example =
    generate_extraction_code-ends no_case graph rank 1 bounded falls 9 manager (codes "payload")
      path (payload ∷ []) true (omega arith)
