-- ===== src/Schema/Build.antt =====
-- The compilation of a schema object in internal/asyncapi/object.go, method by method.
use go_asyncapi.Common.{
  ℕ, suc, Bool, true, false, not, ◌&&◌, ◌||◌, Option, none, some, List, [], ◌∷◌, Bytes, codes, ◌==◌,
  bytes_eq, if◌then◌else◌, eqb,
}
use go_asyncapi.Jsonpointer.{UrlPackage}
use go_asyncapi.Linker.{origin_ref, origin_internal}
use go_asyncapi.Types.Union.{Union2}
use go_asyncapi.Types.OrderedMap.{entries}
use go_asyncapi.Names.{CasePackage, to_golang_name, contains_bytes}
use go_asyncapi.Context.{
  Result, returned, failed, ◌>>=◌, Flags, ObjectPromise, put_promise, put_artifact,
  current_ref_pointer, generate_obj_name, top_item,
}
use go_asyncapi.Render.{schema_artifact}
use go_asyncapi.Schema.{
  XGoType, SchemaFields, Object, ListPromise, all_messages, FieldNames, GoType, go_type_definition,
  go_pointer, go_struct, union_struct, go_array, go_map, type_promise, ref_promise, GoFields,
  no_fields, field, append_fields,
}
use go_asyncapi.Schema.Parts.{
  Ctx, coalesce_names, is_selectable, is_data_model, no_info, get_struct_field_render_info,
  build_x_go_type, replaces_type, get_type_name, schema_base, inline_base, plain_type,
  schema_simple, itoa, zero_schema, no_names, additional_names, register_messages, single_items,
  builtin_name, effective_type, is_true, build_ignored, has_variants,
}

module _ (conv : CasePackage) (net : UrlPackage) where
  -- A promise of a type at a position below the current one, put into the context.
  unfoldable pub new_type_promise : List Bytes → Ctx → Result (ObjectPromise × Ctx)
  new_type_promise parts c = do
    let p : ObjectPromise = record { ref = current_ref_pointer parts c; origin = origin_internal }
    c1 ← put_promise net p c
    returned (p, c1)

  -- The loop over the properties.
  unfoldable pub property_fields :
      Option ListPromise → List Bytes → List (Bytes × SchemaFields) → Ctx → Result (GoFields × Ctx)
  property_fields messages required [] c = returned (no_fields, c)
  property_fields messages required ((k, v) ∷ rest) c = do
    (p, c1) ← new_type_promise (codes "properties" ∷ k ∷ []) c
    (fs, c2) ← property_fields messages required rest c1
    let names : FieldNames = record {
      original_name = to_golang_name conv (coalesce_names v.x_go_name k) true;
      marshal_name = k;
      description = v.description;
      content_types = messages;
    }
    let t = (if contains_bytes k required then go_pointer (type_promise p) else type_promise p)
    returned (field names t fs, c2)

  -- The field for additionalProperties with a schema.
  unfoldable pub typed_additional : SchemaFields → Bytes → Ctx → Result (GoFields × Ctx)
  typed_additional v prop_name c = do
    (p, c1) ← new_type_promise (codes "additionalProperties" ∷ []) c
    name ← generate_obj_name conv prop_name (codes "AdditionalProperties") c1
    returned (
      field (record additional_names { description = v.description })
          (go_map (inline_base name v.description) (get_struct_field_render_info v)
            (plain_type (codes "string") false) (type_promise p))
          no_fields,
      c1,
    )

  -- A map from strings to a defined type that is `any`.
  unfoldable pub any_map : Bytes → Bytes → Bytes → Ctx → Result GoType
  any_map prop_name item_suffix value_suffix c = do
    value ← generate_obj_name conv prop_name value_suffix c
    name ← generate_obj_name conv prop_name item_suffix c
    returned (
        go_map (inline_base name []) no_info (plain_type (codes "string") false)
          (go_type_definition (inline_base value []) (plain_type (codes "any") true)))

  -- The field for additionalProperties that is true.
  unfoldable pub any_additional : Option ListPromise → Bytes → Ctx → Result (GoFields × Ctx)
  any_additional messages prop_name c = do
    t ← any_map prop_name (codes "AdditionalProperties") (codes "AdditionalPropertiesValue") c
    returned (field (record additional_names { content_types = messages }) t no_fields, c)

  unfoldable pub additional_fields : Option ListPromise → Object → Ctx → Result (GoFields × Ctx)
  additional_fields messages o c = elim o.additional_properties [
    | none ↦ returned (no_fields, c)
    | some u ↦
        if eqb u.selector 0
        then typed_additional u.v0 (coalesce_names u.v0.x_go_name o.title) c
        else if eqb u.selector 1 && u.v1
        then any_additional messages (coalesce_names u.v0.x_go_name o.title) c
        else returned (no_fields, c)
  ]

  unfoldable pub build_lang_struct : Flags → Object → Ctx → Result (GoType × Ctx)
  build_lang_struct flags o c = do
    name ← generate_obj_name conv (coalesce_names o.own.x_go_name o.title) [] c
    let messages = (if is_data_model flags then some all_messages else none)
    let c1 = register_messages (is_data_model flags) c
    (fs, c2) ← property_fields messages o.required (entries zero_schema o.properties) c1
    (gs, c3) ← additional_fields messages o c2
    returned (
      go_struct (schema_base flags name o.own.description) (get_struct_field_render_info o.own)
          (append_fields fs gs),
      c3,
    )

  -- The type of the items.
  unfoldable pub items_type : Object → Ctx → Result (GoType × Ctx)
  items_type o c = elim (single_items o.items_schema) [
    | true ↦ do (p, c1) ← new_type_promise (codes "items" ∷ []) c; returned (type_promise p, c1)
    | false ↦ do
      let obj_name = coalesce_names o.own.x_go_name o.title
      t ← any_map obj_name (codes "ItemsItem") (codes "ItemsItemValue") c
      returned (t, c)
  ]

  unfoldable pub build_lang_array : Flags → Object → Ctx → Result (GoType × Ctx)
  build_lang_array flags o c = do
    name ← generate_obj_name conv (coalesce_names o.own.x_go_name o.title) [] c
    (t, c1) ← items_type o c
    returned (
      go_array (schema_base flags name o.own.description) (get_struct_field_render_info o.own) t,
      c1,
    )

  -- One of the three loops of buildUnionStruct, from an index on.
  unfoldable pub union_fields : Bytes → Bool → ℕ → List SchemaFields → Ctx → Result (GoFields × Ctx)
  union_fields part pointers index [] c = returned (no_fields, c)
  union_fields part pointers index (v ∷ vs) c = do
    (p, c1) ← new_type_promise (part ∷ itoa index ∷ []) c
    (fs, c2) ← union_fields part pointers (suc index) vs c1
    let t = (if pointers then go_pointer (type_promise p) else type_promise p)
    returned (field no_names t fs, c2)

  unfoldable pub build_union_struct : Flags → Object → Ctx → Result (GoType × Ctx)
  build_union_struct flags o c = do
    name ← generate_obj_name conv (coalesce_names o.own.x_go_name o.title) [] c
    let c1 = register_messages true c
    (ones, c2) ← union_fields (codes "oneOf") true 0 o.one_of c1
    (anys, c3) ← union_fields (codes "anyOf") true 0 o.any_of c2
    (alls, c4) ← union_fields (codes "allOf") false 0 o.all_of c3
    returned (
      union_struct (schema_base flags name o.own.description) (get_struct_field_render_info o.own)
          (append_fields ones (append_fields anys alls)),
      c4,
    )

  -- The switch on the type's name.
  unfoldable pub build_named_type : Flags → Bytes → Object → Ctx → Result (GoType × Ctx)
  build_named_type flags type_name o c =
      if type_name == codes "object"
      then build_lang_struct flags o c
      else if type_name == codes "array"
      then build_lang_array flags o c
      else if (type_name == codes "null") || (type_name == [])
      then returned (schema_simple o (codes "any") type_name true, c)
      else elim (builtin_name type_name) [
        | some go_name ↦ do
          name ← generate_obj_name conv o.title [] c
          returned (
            go_type_definition (schema_base flags name o.own.description)
                (schema_simple o go_name type_name false),
            c,
          )
        | none ↦ failed (codes "unknown jsonschema type") (current_ref_pointer [] c)
      ]

  -- x-go-type may replace the type.
  abbrev pub replaced_type :
      Flags → Bytes → Object → Ctx → Option (Union2 Bytes XGoType) → Result (GoType × Ctx)
  replaced_type flags type_name o c none = build_named_type flags type_name o c
  replaced_type flags type_name o c (some u) =
      if replaces_type u
      then returned (build_x_go_type o.own u, c)
      else build_named_type flags type_name o c

  unfoldable pub build_golang_type : Flags → Bytes → Object → Ctx → Result (GoType × Ctx)
  build_golang_type flags type_name o c = replaced_type flags type_name o c o.own.x_go_type

  -- registerRef of internal/asyncapi/ref.go
  unfoldable pub register_ref : Bytes → Bytes → Bool → Ctx → Result (GoType × Ctx)
  register_ref ref name selectable c = do
    let p : ObjectPromise = record { ref = ref; origin = origin_ref }
    c1 ← put_promise net p c
    returned (ref_promise p name selectable, c1)

  -- The types that are neither ignored, a reference nor a union.
  unfoldable pub build_typed : Flags → Object → Ctx → Result (GoType × Ctx)
  build_typed flags o c = elim (get_type_name (effective_type o)) [
    | none ↦ failed (codes "empty object type") (current_ref_pointer [] c)
    | some r ↦ do
      (t, c1) ← build_golang_type flags r.0 o c
      returned (if r.1 || is_true o.x_nullable then go_pointer t else t, c1)
  ]

  unfoldable pub build_ref : Flags → Bytes → Object → Ctx → Result (GoType × Ctx)
  build_ref flags object_key o c = do
    name ← if is_selectable flags then returned object_key else generate_obj_name conv [] [] c
    register_ref o.ref name (is_selectable flags) c

  unfoldable pub build : Flags → Bytes → Object → Ctx → Result (GoType × Ctx)
  unfolding build_ignored
  build flags object_key o c =
      if o.x_ignore
      then returned (build_ignored o, c)
      else if not (o.ref == [])
      then build_ref flags object_key o c
      else if has_variants o
      then build_union_struct flags o c
      else build_typed flags o c

  unfoldable pub compile_object : Object → Ctx → Result Ctx
  compile_object o c = do
    item ← top_item c
    (obj, c1) ← build item.flags item.key o c
    returned (put_artifact (schema_artifact obj) c1)
