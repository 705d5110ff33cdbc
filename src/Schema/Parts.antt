-- ===== src/Schema/Parts.antt =====
-- The parts of internal/asyncapi/object.go that need neither the position in the document nor the
-- promises: type names, the guess of a type, x-go-type, tags and the bases of the types.
use go_asyncapi.Common.{
  ℕ, zero, suc, ◌+◌, ◌/◌, ◌%◌, Bool, true, false, not, ◌&&◌, ◌||◌, Option, none, some, List, [],
  ◌∷◌, ◌++◌, Bytes, codes, ◌==◌, bytes_eq, if◌then◌else◌, keep, length, ltb, eqb,
}
use go_asyncapi.Common.GoMap.{has}
use go_asyncapi.Types.Union.{Union2}
use go_asyncapi.Types.OrderedMap.{empty, len}
use go_asyncapi.Names.{contains_bytes}
use go_asyncapi.Context.{Flags, CompileContext, ObjectPromise, put_list_promise}
use go_asyncapi.Render.{Artifact}
use go_asyncapi.Schema.{
  XGoType, SchemaFields, Object, StructFieldRenderInfo, kind_schema, kind_other, BaseType, GoSimple,
  ListPromise, all_messages, FieldNames, GoType, go_simple, go_pointer,
}

abbrev pub Ctx : Type 0
Ctx = CompileContext (Artifact ObjectPromise ListPromise) ListPromise

-- lo.Coalesce on two strings
abbrev pub coalesce_names : Bytes → Bytes → Bytes
coalesce_names a b = if a == [] then b else a

abbrev pub is_selectable : Flags → Bool
is_selectable flags = has (codes "selectable") flags

abbrev pub is_data_model : Flags → Bool
is_data_model flags = has (codes "data_model") flags

abbrev pub embeds : Option (Union2 Bytes XGoType) → Bool
embeds none = false
embeds (some u) = eqb u.selector 1 && u.v1.embedded

abbrev pub no_info : StructFieldRenderInfo
no_info = record { is_embedded_type = false; tags = empty; tag_names = []; tag_values = [] }

unfoldable pub get_struct_field_render_info : SchemaFields → StructFieldRenderInfo
get_struct_field_render_info o =
    let res : StructFieldRenderInfo = record no_info {
      is_embedded_type = embeds o.x_go_type;
      tag_values = o.x_go_tags_values;
    } in
    elim o.x_go_tags [
      | none ↦ res
      | some u ↦
          if eqb u.selector 0
          then record res { tag_names = u.v0 }
          else if eqb u.selector 1
          then record res { tags = u.v1 }
          else res
    ]

unfoldable pub build_x_go_type : SchemaFields → Union2 Bytes XGoType → GoType
unfolding get_struct_field_render_info
build_x_go_type o u =
    let t : GoSimple = record {
      type_name = [];
      is_interface = false;
      import_path = [];
      original_format = [];
      original_type = [];
      render_info = get_struct_field_render_info o;
    } in
    let imported : GoSimple = record t {
      type_name = u.v1.type_name;
      import_path = u.v1.package_name;
      is_interface = u.v1.kind == codes "interface";
    } in
    if eqb u.selector 0
    then go_simple (record t { type_name = u.v0 })
    else if eqb u.selector 1
    then if u.v1.pointer then go_pointer (go_simple imported) else go_simple imported
    else go_simple t

-- Whether x-go-type replaces the type.
abbrev pub replaces_type : Union2 Bytes XGoType → Bool
replaces_type u =
    (eqb u.selector 0 && not (u.v0 == [])) || (eqb u.selector 1 && not (u.v1.type_name == []))

abbrev pub to_type : Bytes → Union2 Bytes (List Bytes)
to_type name = record { v0 = name; v1 = []; selector = 0 }

unfoldable pub guess_object_type : Object → Union2 Bytes (List Bytes)
guess_object_type o =
    if (o.ref == []) && ltb 0 (len o.properties)
    then to_type (codes "object")
    else elim o.items_schema [ some _ ↦ to_type (codes "array") | none ↦ to_type (codes "object") ]

-- The JSON schema type of a list of types without "null"; `none` is the error.
abbrev pub single_type : Bool → List Bytes → Option (Bytes × Bool)
single_type nullable [] = if nullable then some (codes "null", nullable) else none
single_type nullable (t ∷ []) = some (t, nullable)
single_type nullable (t ∷ u ∷ ts) = some ([], nullable)

unfoldable pub get_type_name : Union2 Bytes (List Bytes) → Option (Bytes × Bool)
get_type_name u =
    if eqb u.selector 1
    then single_type (contains_bytes (codes "null") u.v1) (keep (λ t. not (t == codes "null")) u.v1)
    else some (u.v0, false)

abbrev pub schema_base : Flags → Bytes → Bytes → BaseType
schema_base flags name description = record {
  original_name = name;
  description = description;
  has_definition = is_selectable flags;
  artifact_kind = (if is_selectable flags then kind_schema else kind_other);
}

abbrev pub inline_base : Bytes → Bytes → BaseType
inline_base name description = record {
  original_name = name;
  description = description;
  has_definition = false;
  artifact_kind = kind_other;
}

-- &lang.GoSimple{TypeName: name, IsInterface: ...}
abbrev pub plain_type : Bytes → Bool → GoType
plain_type name is_interface = go_simple (record {
  type_name = name;
  is_interface = is_interface;
  import_path = [];
  original_format = [];
  original_type = [];
  render_info = no_info;
})

abbrev pub schema_simple : Object → Bytes → Bytes → Bool → GoType
schema_simple o name type_name is_interface = go_simple (record {
  type_name = name;
  is_interface = is_interface;
  import_path = [];
  original_format = o.format;
  original_type = type_name;
  render_info = get_struct_field_render_info o.own;
})

-- strconv.Itoa, on as much fuel as the number
abbrev pub digits : ℕ → ℕ → Bytes
digits zero n = []
digits (suc fuel) n =
    let rest = digits fuel (n / 10) in
    if ltb n 10 then (48 + n) ∷ [] else rest ++ (48 + n % 10) ∷ []

abbrev pub itoa : ℕ → Bytes
itoa n = digits (suc n) n

abbrev pub zero_schema : SchemaFields
zero_schema = record {
  description = [];
  x_go_type = none;
  x_go_name = [];
  x_go_tags = none;
  x_go_tags_values = [];
}

abbrev pub no_names : FieldNames
no_names = record { original_name = []; marshal_name = []; description = []; content_types = none }

abbrev pub additional_names : FieldNames
additional_names = record no_names { original_name = codes "AdditionalProperties" }

-- The promise of the messages, for the structs that are data models.
unfoldable pub register_messages : Bool → Ctx → Ctx
register_messages true c = put_list_promise all_messages c
register_messages false c = c

-- One schema for all items. The selector of a union of two types is 0 or 1.
abbrev pub single_items : Option (Union2 SchemaFields (List SchemaFields)) → Bool
single_items none = false
single_items (some u) = eqb u.selector 0

-- The Go name of a type that is defined by a built-in one.
abbrev pub builtin_name : Bytes → Option Bytes
builtin_name t =
    if t == codes "boolean"
    then some (codes "bool")
    else if t == codes "integer"
    then some (codes "int")
    else if t == codes "number"
    then some (codes "float64")
    else if t == codes "string"
    then some (codes "string")
    else none

abbrev pub effective_type : Object → Union2 Bytes (List Bytes)
effective_type o = elim o.schema_type [ none ↦ guess_object_type o | some u ↦ u ]

abbrev pub is_true : Option Bool → Bool
is_true none = false
is_true (some b) = b

unfoldable pub build_ignored : Object → GoType
build_ignored o = go_simple (record {
  type_name = codes "any";
  is_interface = true;
  import_path = [];
  original_format = [];
  original_type = [];
  render_info = get_struct_field_render_info o.own;
})

abbrev pub has_variants : Object → Bool
has_variants o = ltb 0 (length o.one_of + length o.any_of + length o.all_of)
