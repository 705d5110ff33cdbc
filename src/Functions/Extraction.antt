-- ===== src/Functions/Extraction.antt =====
-- generateRuntimeExpressionExtractionCode of internal/tmpl/functions.go: the loop over the path with
-- its type switch. The loop has fuel, since wrappers and references are followed without a step.
use go_asyncapi.Common.{
  ℕ, zero, suc, ◌+◌, Bool, true, false, Option, none, some, List, [], ◌∷◌, ◌++◌, Bytes, codes,
  bytes_eq, if◌then◌else◌, ◌>>=◌,
}
use go_asyncapi.Common.Strings.{join}
use go_asyncapi.Locator.Path.{slash}
use go_asyncapi.Names.{CasePackage}
use go_asyncapi.Functions.Importing.{import_external_package}
use go_asyncapi.RenderManager.{RenderManager}
use go_asyncapi.Functions.Expressions.{
  MemberName, number, text, not_escaped, slice_panic, unescape_fragment_part, StructField, TypeView,
  go_struct, go_map, go_array, go_simple, wrapped_type, reference_type, other_type, CodeStep,
  ExpressionError, no_struct_field, part_not_escaped, no_member, not_numeric, primitive_type,
  nil_wrapped, nil_reference, not_addressable, var_name, decimal, find_field, equal_fold,
  named_member, part_text, broken, is_text, is_empty,
}

-- One turn of the loop: a step of the path, the same part again for another type, an error, or a
-- panic.
pub data Turn (M : Type 0) : Type 0 where
  stepped : CodeStep → M → Turn M
  continued : ℕ → Turn M
  stopped : ExpressionError → Turn M
  turn_panics : Turn M

-- What the loop ends with; `fuel_used_up` stands for no end within the fuel.
pub data Extraction (M : Type 0) : Type 0 where
  extracted : List CodeStep → Option ExpressionError → M → Extraction M
  extraction_panics : Extraction M
  fuel_used_up : Extraction M

-- What the functions need of package strconv, of the types, and of templateGoUsage, whose error is
-- `none`.
pub record TypeGraph (M : Type 0) : Type 0 where
  pub quote : Bytes → Bytes
  pub view : ℕ → TypeView
  pub can_be_addressed : ℕ → Bool
  pub go_usage : M → ℕ → Option (Bytes × M)

abbrev pub step_of : ℕ → MemberName → List Bytes → Bytes → ℕ → CodeStep
step_of idx m lines operator type = record {
  expression_part = part_text m;
  lines = lines;
  input_var = var_name idx;
  operator = operator;
  output_var = var_name (idx + 1);
  output_type = type;
}

abbrev pub with_step : {M : Type 0} → CodeStep → Extraction M → Extraction M
with_step s (extracted items e mng) = extracted (s ∷ items) e mng
with_step s extraction_panics = extraction_panics
with_step s fuel_used_up = fuel_used_up

module _ (conv : CasePackage) {O : Type 0} (graph : TypeGraph (RenderManager O)) where
  abbrev pub Manager : Type 0
  Manager = RenderManager O

  -- toGoLiteral of a member's name
  abbrev pub to_go_literal : MemberName → Bytes
  to_go_literal (number negative n) = decimal negative n
  to_go_literal (text s) = graph.quote s
  to_go_literal not_escaped = []
  to_go_literal slice_panic = []

  abbrev pub import_errorf : Manager → Option (Bytes × Manager)
  unfolding import_external_package
  import_errorf mng = do
    (name, m) ← import_external_package conv mng (codes "fmt" ∷ [])
    some (name ++ codes ".Errorf", m)

  abbrev pub field_turn : Manager → ℕ → MemberName → Option StructField → Turn Manager
  field_turn mng idx m none = stopped no_member
  field_turn mng idx m (some f) =
      let operator : Bytes = var_name idx ++ codes "." ++ f.original_name in
      stepped
        (step_of idx m ((var_name (idx + 1) ++ codes " := " ++ operator) ∷ []) operator
          f.field_type)
        mng

  abbrev pub struct_turn : Manager → ℕ → MemberName → List StructField → Turn Manager
  struct_turn mng idx m fields = field_turn mng idx m (find_field (named_member m) fields)

  -- The declaration of the variable, with a pointer initialized where the type is addressed.
  abbrev pub map_declaration : Manager → ℕ → ℕ → Option (Bytes × Manager)
  map_declaration mng idx value = do
    (usage, m1) ← graph.go_usage mng value
    let declared : Bytes = codes "var " ++ var_name (idx + 1) ++ codes " " ++ usage in
        if graph.can_be_addressed value
        then (graph.go_usage m1 value >>= λ u.
            some (declared ++ codes " = new(" ++ u.0 ++ codes ")", u.1))
        else some (declared, m1)

  abbrev pub map_validation : Bool → List Bytes → MemberName → Manager → Option (Bytes × Manager)
  map_validation false before m mng = some ([], mng)
  map_validation true before m mng = do
    (errorf, m1) ← import_errorf mng
    some (
      codes " else {"
          ++ broken 5
          ++ codes "err = "
          ++ errorf
          ++ codes "("
          ++ 34
            ∷ (codes "key %q not found in map, expression path /"
                ++ join slash before
                ++ 34
                  ∷ (codes ", "
                      ++ to_go_literal m
                      ++ codes ")"
                      ++ broken 5
                      ++ codes "return"
                      ++ broken 4
                      ++ codes "}")),
      m1,
    )

  abbrev pub map_lines :
      Bool → Manager → ℕ → ℕ → ℕ → List Bytes → MemberName → Bytes → Option (List Bytes × Manager)
  map_lines validate mng idx type value before m operator = do
    (declaration, m1) ← map_declaration mng idx value
    (validation, m2) ← map_validation validate before m m1
    (usage, m3) ← graph.go_usage m2 type
    some (
      (codes "if "
            ++ var_name idx
            ++ codes " == nil { "
            ++ broken 5
            ++ var_name idx
            ++ codes " = make("
            ++ usage
            ++ codes ") "
            ++ broken 4
            ++ codes "}")
          ∷ declaration
          ∷ (codes "if v, ok := "
              ++ operator
              ++ codes "; ok {"
              ++ broken 4
              ++ var_name (idx + 1)
              ++ codes " = v"
              ++ broken 3
              ++ codes "}"
              ++ validation)
          ∷ [],
      m3,
    )

  -- The step with its lines, or the panic of lo.Must.
  abbrev pub lines_turn : ℕ → MemberName → Bytes → ℕ → Option (List Bytes × Manager) → Turn Manager
  lines_turn idx m operator type none = turn_panics
  lines_turn idx m operator type (some (lines, mng)) =
      stepped (step_of idx m lines operator type) mng

  abbrev pub indexed : ℕ → MemberName → Bytes
  indexed idx m = var_name idx ++ codes "[" ++ to_go_literal m ++ codes "]"

  abbrev pub map_turn : Bool → Manager → ℕ → ℕ → ℕ → List Bytes → MemberName → Turn Manager
  map_turn validate mng idx type value before m =
      lines_turn idx m (indexed idx m) value
        (map_lines validate mng idx type value before m (indexed idx m))

  abbrev pub array_validation :
      Bool → Manager → ℕ → List Bytes → MemberName → Option (List Bytes × Manager)
  array_validation false mng idx before m = some ([], mng)
  array_validation true mng idx before m = do
    (errorf, m1) ← import_errorf mng
    some (
      (codes "if len("
            ++ var_name idx
            ++ codes ") <= "
            ++ to_go_literal m
            ++ codes " {"
            ++ broken 5
            ++ codes "err = "
            ++ errorf
            ++ codes "("
            ++ 34
              ∷ (codes "index %q is out of range in array of length %d on expression path /"
                  ++ join slash before
                  ++ 34
                    ∷ (codes ", "
                        ++ to_go_literal m
                        ++ codes ", len("
                        ++ var_name idx
                        ++ codes "))"
                        ++ broken 5
                        ++ codes "return"
                        ++ broken 4
                        ++ codes "}")))
          ∷ [],
      m1,
    )

  abbrev pub array_lines :
      Bool → Manager → ℕ → List Bytes → MemberName → Option (List Bytes × Manager)
  array_lines validate mng idx before m = do
    (lines, m1) ← array_validation validate mng idx before m
    some (lines ++ (var_name (idx + 1) ++ codes " := " ++ indexed idx m) ∷ [], m1)

  abbrev pub array_turn : Bool → Manager → ℕ → ℕ → List Bytes → MemberName → Turn Manager
  array_turn validate mng idx items before m =
      lines_turn idx m (indexed idx m) items (array_lines validate mng idx before m)

  abbrev pub continued_or : ExpressionError → Option ℕ → Turn Manager
  continued_or e none = stopped e
  continued_or e (some t) = continued t

  -- The type switch; `last` says that no part of the path follows.
  abbrev pub type_switch :
      Bool → Manager → ℕ → ℕ → List Bytes → MemberName → Bool → TypeView → Turn Manager
  type_switch validate mng idx type before m last (go_struct fields) = struct_turn mng idx m fields
  type_switch validate mng idx type before m last (go_map value) =
      map_turn validate mng idx type value before m
  type_switch validate mng idx type before m last (go_array items) =
      if is_text m then stopped not_numeric else array_turn validate mng idx items before m
  type_switch validate mng idx type before m last go_simple =
      if last then stopped primitive_type else stepped (step_of idx m [] [] type) mng
  type_switch validate mng idx type before m last (wrapped_type t) = continued_or nil_wrapped t
  type_switch validate mng idx type before m last (reference_type t) = continued_or nil_reference t
  type_switch validate mng idx type before m last other_type = stopped not_addressable

  abbrev pub one_turn : Bool → Manager → ℕ → ℕ → List Bytes → MemberName → Bool → Turn Manager
  one_turn validate mng idx type before not_escaped last = stopped part_not_escaped
  one_turn validate mng idx type before slice_panic last = turn_panics
  one_turn validate mng idx type before (text s) last =
      type_switch validate mng idx type before (text s) last (graph.view type)
  one_turn validate mng idx type before (number negative n) last =
      type_switch validate mng idx type before (number negative n) last (graph.view type)

  -- The loop over the path.
  unfoldable pub extract : Bool → ℕ → Manager → ℕ → ℕ → List Bytes → List Bytes → Extraction Manager
  unfolding unescape_fragment_part
  extract validate zero mng idx type before path = fuel_used_up
  extract validate (suc fuel) mng idx type before [] = extracted [] none mng
  extract validate (suc fuel) mng idx type before (p ∷ ps) =
      elim (one_turn validate mng idx type before (unescape_fragment_part p) (is_empty ps)) [
        | stepped s m ↦
            with_step s (extract validate fuel m (idx + 1) s.output_type (before ++ p ∷ []) ps)
        | continued t ↦ extract validate fuel mng idx t before (p ∷ ps)
        | stopped e ↦ extracted [] (some e) mng
        | turn_panics ↦ extraction_panics
      ]

  abbrev pub extract_field :
      ℕ → Manager → List Bytes → Bool → Option StructField → Extraction Manager
  extract_field fuel mng location_path validate none = extracted [] (some no_struct_field) mng
  extract_field fuel mng location_path validate (some f) =
      extract validate fuel mng 0 f.field_type [] location_path

  unfoldable pub generate_extraction_code :
      ℕ → Manager → Bytes → List Bytes → List StructField → Bool → Extraction Manager
  generate_extraction_code fuel mng struct_field_kind location_path target_fields validate =
      extract_field fuel mng location_path validate
        (find_field (λ f. equal_fold f.original_name struct_field_kind) target_fields)
