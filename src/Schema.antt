-- ===== src/Schema.antt =====
-- The Go types of internal/render/lang and the JSON schema objects of internal/asyncapi/object.go.
-- Of a nested schema only the fields are read that `SchemaFields` has; the position of an artifact
-- is set after it is built.
pub mod Parts
pub mod Build
pub mod Promises
pub mod Registered
pub mod Nullable
pub mod Location
use go_asyncapi.Common.{ℕ, Bool, Option, List, [], ◌∷◌, ◌++◌, Bytes}
use go_asyncapi.Types.Union.{Union2}
use go_asyncapi.Types.OrderedMap.{OrderedMap}
use go_asyncapi.Context.{ObjectPromise}

-- internal/asyncapi/extra.go; `package_name` is the import's field Package, `kind` and `pointer`
-- are the hint's.
pub record XGoType : Type 0 where
  pub type_name : Bytes
  pub package_name : Bytes
  pub embedded : Bool
  pub kind : Bytes
  pub pointer : Bool

pub record SchemaFields : Type 0 where
  pub description : Bytes
  pub x_go_type : Option (Union2 Bytes XGoType)
  pub x_go_name : Bytes
  pub x_go_tags : Option (Union2 (List Bytes) (OrderedMap Bytes Bytes))
  pub x_go_tags_values : List Bytes

pub record Object : Type 0 where
  pub own : SchemaFields
  pub schema_type : Option (Union2 Bytes (List Bytes))
  pub additional_properties : Option (Union2 SchemaFields Bool)
  pub all_of : List SchemaFields
  pub any_of : List SchemaFields
  pub one_of : List SchemaFields
  pub format : Bytes
  pub items_schema : Option (Union2 SchemaFields (List SchemaFields))
  pub properties : OrderedMap Bytes SchemaFields
  pub required : List Bytes
  pub title : Bytes
  pub x_nullable : Option Bool
  pub x_ignore : Bool
  pub ref : Bytes

pub record StructFieldRenderInfo : Type 0 where
  pub is_embedded_type : Bool
  pub tags : OrderedMap Bytes Bytes
  pub tag_names : List Bytes
  pub tag_values : List Bytes

-- Two of the values of common.ArtifactKind.
pub data ArtifactKind : Type 0 where
  kind_schema kind_other : ArtifactKind

pub record BaseType : Type 0 where
  pub original_name : Bytes
  pub description : Bytes
  pub has_definition : Bool
  pub artifact_kind : ArtifactKind

pub record GoSimple : Type 0 where
  pub type_name : Bytes
  pub is_interface : Bool
  pub import_path : Bytes
  pub original_format : Bytes
  pub original_type : Bytes
  pub render_info : StructFieldRenderInfo

-- The list promises, by what their callbacks look for; that of the messages gives a struct field its
-- content types on rendering.
pub data ListPromise : Type 0 where
  all_messages active_servers active_channels active_operations : ListPromise
  secured_servers secured_operations : ListPromise

pub record FieldNames : Type 0 where
  pub original_name : Bytes
  pub marshal_name : Bytes
  pub description : Bytes
  pub content_types : Option ListPromise

mutual
  -- The artifacts that a schema object is built into; `type_promise` is a GolangTypePromise and
  -- `ref_promise` a Ref, by what the linker reads of them.
  pub data GoType : Type 0 where
    go_simple : GoSimple → GoType
    go_type_definition : BaseType → GoType → GoType
    go_pointer : GoType → GoType
    go_struct : BaseType → StructFieldRenderInfo → GoFields → GoType
    union_struct : BaseType → StructFieldRenderInfo → GoFields → GoType
    go_array : BaseType → StructFieldRenderInfo → GoType → GoType
    go_map : BaseType → StructFieldRenderInfo → GoType → GoType → GoType
    type_promise : ObjectPromise → GoType
    ref_promise : ObjectPromise → Bytes → Bool → GoType

  -- []GoStructField
  pub data GoFields : Type 0 where
    no_fields : GoFields
    field : FieldNames → GoType → GoFields → GoFields

abbrev mutual
  -- The promises that stand in a type, in the order of the fields.
  pub promises_in : GoType → List ObjectPromise
  promises_in (go_simple s) = []
  promises_in (go_type_definition b t) = promises_in t
  promises_in (go_pointer t) = promises_in t
  promises_in (go_struct b i fs) = promises_in_fields fs
  promises_in (union_struct b i fs) = promises_in_fields fs
  promises_in (go_array b i t) = promises_in t
  promises_in (go_map b i k v) = promises_in k ++ promises_in v
  promises_in (type_promise p) = p ∷ []
  promises_in (ref_promise p n s) = p ∷ []

  pub promises_in_fields : GoFields → List ObjectPromise
  promises_in_fields no_fields = []
  promises_in_fields (field n t fs) = promises_in t ++ promises_in_fields fs

abbrev pub append_fields : GoFields → GoFields → GoFields
append_fields no_fields gs = gs
append_fields (field n t fs) gs = field n t (append_fields fs gs)
