-- ===== src/Functions/Steps.antt =====
-- What the steps are that generateRuntimeExpressionExtractionCode returns without an error
-- (internal/tmpl/functions.go).
use go_asyncapi.Common.{
  ℕ, zero, suc, ◌+◌, ◌≡◌, refl, ◌∙◌, Bool, true, false, Option, none, some, List, [], ◌∷◌, ◌++◌,
  Bytes, ◌⊎◌, inl, inr, Bool-cases, ap,
}
use mathlib.Core.Path.{subst}
use go_asyncapi.Names.{CasePackage}
use go_asyncapi.RenderManager.{RenderManager}
use go_asyncapi.Functions.Expressions.{
  MemberName, number, text, not_escaped, slice_panic, unescape_fragment_part, StructField, TypeView,
  go_struct, go_map, go_array, go_simple, wrapped_type, reference_type, other_type, CodeStep,
  ExpressionError, var_name, find_field, named_member, equal_fold, is_text, is_empty,
}
use go_asyncapi.Functions.Extraction.{
  Turn, stepped, continued, stopped, turn_panics, Extraction, extracted, extraction_panics,
  fuel_used_up, TypeGraph, extract, generate_extraction_code, extract_field, one_turn, with_step,
  type_switch, field_turn, lines_turn,
}

abbrev Failed : {M : Type 0} → Extraction M → Type 0
Failed (extracted items none mng) = ⊥
Failed (extracted items (some e) mng) = Unit
Failed extraction_panics = Unit
Failed fuel_used_up = Unit

pub Turn-cases :
    {M : Type 0} (t : Turn M)
    → ((s : CodeStep) × (m : M) × (t ≡ stepped s m))
      ⊎ ((u : ℕ) × (t ≡ continued u))
      ⊎ ((e : ExpressionError) × (t ≡ stopped e))
      ⊎ (t ≡ turn_panics)
Turn-cases (stepped s m) = inl (s, m, refl)
Turn-cases (continued u) = inr (inl (u, refl))
Turn-cases (stopped e) = inr (inr (inl (e, refl)))
Turn-cases turn_panics = inr (inr (inr refl))

-- A type that stands behind a member: a field with that marshalled name, or the values of a map, or
-- the items of an array, whose member is a number.
abbrev pub IsMember : TypeView → MemberName → ℕ → Type 0
IsMember (go_struct fields) m v =
    (f : StructField) × (find_field (named_member m) fields ≡ some f) × (v ≡ f.field_type)
IsMember (go_map w) m v = v ≡ w
IsMember (go_array w) m v = (is_text m ≡ false) × (v ≡ w)
IsMember go_simple m v = ⊥
IsMember (wrapped_type t) m v = ⊥
IsMember (reference_type t) m v = ⊥
IsMember other_type m v = ⊥

-- What a turn at the type `t` does to the member `m`; a simple type lets a part pass that is not
-- the last.
abbrev pub TurnOk : {M : Type 0} → ℕ → ℕ → TypeView → MemberName → Bool → Turn M → Type 0
TurnOk idx t v m last (stepped s mng) =
    (IsMember (v) m s.output_type ⊎ ((v ≡ go_simple) × (last ≡ false) × (s.output_type ≡ t)))
    × (s.input_var ≡ var_name idx)
    × (s.output_var ≡ var_name (idx + 1))
TurnOk idx t v m last (continued u) = (v ≡ wrapped_type (some u)) ⊎ (v ≡ reference_type (some u))
TurnOk idx t v m last (stopped e) = Unit
TurnOk idx t v m last turn_panics = Unit

module _ (view : ℕ → TypeView) where
  -- The type, or one that its wrappers and references lead to.
  pub data Sees : ℕ → ℕ → Type 0 where
    here : {t : ℕ} → Sees t t
    through_wrapped : {t u v : ℕ} → view t ≡ wrapped_type (some u) → Sees u v → Sees t v
    through_reference : {t u v : ℕ} → view t ≡ reference_type (some u) → Sees u v → Sees t v

  -- One step for each part of the path: it takes the variable of the step before and goes from that
  -- step's type to a member of it.
  pub data Follows : ℕ → ℕ → List Bytes → List CodeStep → Type 0 where
    at_end : {idx t : ℕ} → Follows idx t [] []
    step :
        {idx t u : ℕ} {p : Bytes} {ps : List Bytes} {s : CodeStep} {ss : List CodeStep}
        → Sees t u
        → IsMember (view u) (unescape_fragment_part p) s.output_type
        → s.input_var ≡ var_name idx
        → s.output_var ≡ var_name (idx + 1)
        → Follows (idx + 1) s.output_type ps ss
        → Follows idx t (p ∷ ps) (s ∷ ss)

  abbrev pub Result : {M : Type 0} → ℕ → ℕ → List Bytes → Extraction M → Type 0
  Result idx t path (extracted items none mng) = Follows idx t path items
  Result idx t path (extracted items (some e) mng) = Unit
  Result idx t path extraction_panics = Unit
  Result idx t path fuel_used_up = Unit

  -- Behind a simple type there is no member.
  simple_stops :
      {idx t : ℕ} {p : Bytes} {ps : List Bytes} {ss : List CodeStep}
      → view t ≡ go_simple
      → Follows idx t (p ∷ ps) ss
      → ⊥
  simple_stops {p = p} e (step {s = s} here m i o f) =
      subst (λ v. IsMember v (unescape_fragment_part p) s.output_type) e m
  simple_stops e (step (through_wrapped h s) m i o f) = absurd (cc (e, h))
  simple_stops e (step (through_reference h s) m i o f) = absurd (cc (e, h))

  with_step-Result :
      {M : Type 0} (idx t : ℕ) (p : Bytes) (ps : List Bytes) (s : CodeStep) (m : M)
      (r : Extraction M)
      → TurnOk idx t (view t) (unescape_fragment_part p) (is_empty ps) (stepped s m)
      → Result (idx + 1) s.output_type ps r
      → Result idx t (p ∷ ps) (with_step s r)
  with_step-Result idx t p ps s m (extracted items none mng) (inl h, i, o) f = step here h i o f
  with_step-Result idx t p [] s m (extracted items none mng) (inr (v, l, e), i, o) f = absurd (cc l)
  with_step-Result idx t p (q ∷ ps) s m (extracted items none mng) (inr (v, l, e), i, o) f =
      absurd (simple_stops (ap view e ∙ v) f)
  with_step-Result idx t p ps s m (extracted items (some e) mng) ok f = tt
  with_step-Result idx t p ps s m extraction_panics ok f = tt
  with_step-Result idx t p ps s m fuel_used_up ok f = tt

  through :
      {M : Type 0} (idx t u : ℕ) (p : Bytes) (ps : List Bytes) (r : Extraction M)
      → (view t ≡ wrapped_type (some u)) ⊎ (view t ≡ reference_type (some u))
      → Result idx u (p ∷ ps) r
      → Result idx t (p ∷ ps) r
  through idx t u p ps (extracted items none mng) (inl h) (step s m i o f) =
      step (through_wrapped h s) m i o f
  through idx t u p ps (extracted items none mng) (inr h) (step s m i o f) =
      step (through_reference h s) m i o f
  through idx t u p ps (extracted items (some e) mng) h f = tt
  through idx t u p ps extraction_panics h f = tt
  through idx t u p ps fuel_used_up h f = tt

module _ (conv : CasePackage) {O : Type 0} (graph : TypeGraph (RenderManager O)) where
  field_turn-TurnOk :
      (mng : RenderManager O) (idx t : ℕ) (m : MemberName) (last : Bool) (fields : List StructField)
      (found : Option StructField)
      → find_field (named_member m) fields ≡ found
      → TurnOk idx t (go_struct fields) m last (field_turn conv graph mng idx m found)
  field_turn-TurnOk mng idx t m last fields none e = tt
  field_turn-TurnOk mng idx t m last fields (some f) e = (inl (f, e, refl), refl, refl)

  lines_turn-TurnOk :
      (idx t type : ℕ) (view : TypeView) (m : MemberName) (last : Bool) (operator : Bytes)
      (lines : Option (List Bytes × RenderManager O))
      → IsMember view m type
      → TurnOk idx t view m last (lines_turn conv graph idx m operator type lines)
  lines_turn-TurnOk idx t type view m last operator none h = tt
  lines_turn-TurnOk idx t type view m last operator (some lines) h = (inl h, refl, refl)

  type_switch-TurnOk :
      (validate : Bool) (mng : RenderManager O) (idx t : ℕ) (before : List Bytes) (m : MemberName)
      (last : Bool) (v : TypeView)
      → TurnOk idx t v m last (type_switch conv graph validate mng idx t before m last v)
  type_switch-TurnOk validate mng idx t before m last (go_struct fields) =
      field_turn-TurnOk mng idx t m last fields _ refl
  type_switch-TurnOk validate mng idx t before m last (go_map w) =
      lines_turn-TurnOk idx t w (go_map w) m last _ _ refl
  type_switch-TurnOk validate mng idx t before m last (go_array w) = elim (Bool-cases (is_text m)) [
    | inl e ↦ rw (e, TurnOk) tt
    | inr e ↦ rw (e, TurnOk) (lines_turn-TurnOk idx t w (go_array w) m last _ _ (e, refl))
  ]
  type_switch-TurnOk validate mng idx t before m true go_simple = tt
  type_switch-TurnOk validate mng idx t before m false go_simple =
      (inr (refl, refl, refl), refl, refl)
  type_switch-TurnOk validate mng idx t before m last (wrapped_type none) = tt
  type_switch-TurnOk validate mng idx t before m last (wrapped_type (some u)) = inl refl
  type_switch-TurnOk validate mng idx t before m last (reference_type none) = tt
  type_switch-TurnOk validate mng idx t before m last (reference_type (some u)) = inr refl
  type_switch-TurnOk validate mng idx t before m last other_type = tt

  pub one_turn-TurnOk :
      (validate : Bool) (mng : RenderManager O) (idx t : ℕ) (before : List Bytes) (m : MemberName)
      (last : Bool)
      → TurnOk idx t (graph.view t) m last (one_turn conv graph validate mng idx t before m last)
  one_turn-TurnOk validate mng idx t before not_escaped last = tt
  one_turn-TurnOk validate mng idx t before slice_panic last = tt
  one_turn-TurnOk validate mng idx t before (text s) last =
      type_switch-TurnOk validate mng idx t before (text s) last (graph.view t)
  one_turn-TurnOk validate mng idx t before (number negative n) last =
      type_switch-TurnOk validate mng idx t before (number negative n) last (graph.view t)

  extract-Result :
      (validate : Bool) (fuel : ℕ) (mng : RenderManager O) (idx t : ℕ) (before path : List Bytes)
      → Result graph.view idx t path (extract conv graph validate fuel mng idx t before path)
  unfolding extract
  extract-Result validate zero mng idx t before path = tt
  extract-Result validate (suc fuel) mng idx t before [] = at_end
  extract-Result validate (suc fuel) mng idx t before (p ∷ ps) =
      let ok = one_turn-TurnOk validate mng idx t before (unescape_fragment_part p) (is_empty ps) in
      elim (Turn-cases
        (one_turn conv graph validate mng idx t before (unescape_fragment_part p) (is_empty ps))) [
          | inl (s, m, e) ↦
              rw (e, Result, extract)
                (with_step-Result graph.view idx t p ps s m
                  (extract conv graph validate fuel m (idx + 1) s.output_type (before ++ p ∷ []) ps)
                  (subst (TurnOk idx t (graph.view t) (unescape_fragment_part p) (is_empty ps)) e
                    ok)
                  (extract-Result validate fuel m (idx + 1) s.output_type (before ++ p ∷ []) ps))
          | inr (inl (u, e)) ↦
              rw (e, Result, extract)
                (through graph.view idx t u p ps
                  (extract conv graph validate fuel mng idx u before (p ∷ ps))
                  (subst (TurnOk idx t (graph.view t) (unescape_fragment_part p) (is_empty ps)) e
                    ok)
                  (extract-Result validate fuel mng idx u before (p ∷ ps)))
          | inr (inr (inl (x, e))) ↦ rw (e, Result, extract) tt
          | inr (inr (inr e)) ↦ rw (e, Result, extract) tt
        ]

  field-Follows :
      (fuel : ℕ) (mng : RenderManager O) (path : List Bytes) (validate : Bool)
      (items : List CodeStep) (mng1 : RenderManager O) (found : Option StructField)
      → extract_field conv graph fuel mng path validate found ≡ extracted items none mng1
      → (f : StructField) × (found ≡ some f) × Follows graph.view 0 f.field_type path items
  field-Follows fuel mng path validate items mng1 none h = absurd (subst Failed h tt)
  field-Follows fuel mng path validate items mng1 (some f) h = (
    f,
    refl,
    subst (Result graph.view 0 f.field_type path) h
        (extract-Result validate fuel mng 0 f.field_type [] path),
  )

  -- If the code for a runtime expression is generated without an error, then the message has a
  -- field of that kind, and there is one step for each part of the path: it reads the variable that
  -- the step before writes, from v0 on, and goes to a member of the type before, of that part's
  -- name, behind wrappers and references. No step goes through a simple type.
  pub generate_extraction_code-Follows :
      (fuel : ℕ) (mng : RenderManager O) (kind : Bytes) (path : List Bytes)
      (target_fields : List StructField) (validate : Bool) (items : List CodeStep)
      (mng1 : RenderManager O)
      → generate_extraction_code conv graph fuel mng kind path target_fields validate
        ≡ extracted items none mng1
      → (f : StructField) × (find_field (λ g. equal_fold g.original_name kind) target_fields
          ≡ some f)
        × Follows graph.view 0 f.field_type path items
  unfolding generate_extraction_code
  generate_extraction_code-Follows fuel mng kind path target_fields validate items mng1 h =
      field-Follows fuel mng path validate items mng1
        (find_field (λ g. equal_fold g.original_name kind) target_fields) h
