-- ===== src/Schema/Nullable.antt =====
-- Lists of types in a schema object (getTypeName and build of internal/asyncapi/object.go).
use go_asyncapi.Common.{
  ◌≡◌, ◌≢◌, refl, true, false, some, List, [], ◌∷◌, Bytes, codes, bytes_eq, eq_refl, false_of_ne,
  if◌then◌else◌, list_beq,
}
use go_asyncapi.Jsonpointer.{UrlPackage}
use go_asyncapi.Types.Union.{Union2}
use go_asyncapi.Names.{CasePackage}
use go_asyncapi.Context.{Result, returned, failed, panicked, ◌>>=◌, Flags}
use go_asyncapi.Schema.{Object, GoType, go_pointer}
use go_asyncapi.Schema.Parts.{Ctx, get_type_name, has_variants, to_type, is_true}
use go_asyncapi.Schema.Build.{
  build, build_typed, build_golang_type, build_named_type, build_lang_struct, build_lang_array,
  items_type, additional_fields,
}

-- The types of a list, the second constructor of the union.
abbrev pub to_types : List Bytes → Union2 Bytes (List Bytes)
to_types names = record { v0 = []; v1 = names; selector = 1 }

abbrev pub with_type : Object → Union2 Bytes (List Bytes) → Object
with_type o u = record o { schema_type = some u }

abbrev pub null : Bytes
null = codes "null"

get_type_name-nullable :
    (t : Bytes) → t ≢ null → get_type_name (to_types (t ∷ null ∷ [])) ≡ some (t, true)
unfolding get_type_name list_beq
get_type_name-nullable t h = rw (false_of_ne t null h) refl

get_type_name-null_first :
    (t : Bytes) → t ≢ null → get_type_name (to_types (null ∷ t ∷ [])) ≡ some (t, true)
unfolding get_type_name list_beq
get_type_name-null_first t h = rw (false_of_ne t null h) refl

get_type_name-single : (t : Bytes) → get_type_name (to_type t) ≡ some (t, false)
unfolding get_type_name
get_type_name-single t = refl

abbrev pub to_pointer : Result (GoType × Ctx) → Result (GoType × Ctx)
to_pointer r = r >>= λ tc. returned (go_pointer tc.0, tc.1)

module _ (conv : CasePackage) (net : UrlPackage) where
  -- What is built for the type's name does not depend on how the type is given.
  build_golang_type-type_irrelevant :
      (flags : Flags) (t : Bytes) (o : Object) (u v : Union2 Bytes (List Bytes)) (c : Ctx)
      → build_golang_type conv net flags t (with_type o u) c
        ≡ build_golang_type conv net flags t (with_type o v) c
  unfolding build_golang_type build_named_type build_lang_struct build_lang_array items_type
      additional_fields
  build_golang_type-type_irrelevant flags t o u v c = refl

  pointer_of :
      (r : Result (GoType × Ctx))
      → (r >>= λ tc. returned (if true then go_pointer tc.0 else tc.0, tc.1))
        ≡ to_pointer (r >>= λ tc. returned (if false then go_pointer tc.0 else tc.0, tc.1))
  pointer_of (returned tc) = refl
  pointer_of (failed message path) = refl
  pointer_of panicked = refl

  build_typed-nullable :
      (flags : Flags) (t : Bytes) (o : Object) (u : Union2 Bytes (List Bytes)) (c : Ctx)
      → is_true o.x_nullable ≡ false
      → get_type_name u ≡ some (t, true)
      → build_typed conv net flags (with_type o u) c
        ≡ to_pointer (build_typed conv net flags (with_type o (to_type t)) c)
  unfolding build_typed
  build_typed-nullable flags t o u c plain e =
      rw
        (
          e,
          build_typed,
          get_type_name-single t,
          build_golang_type-type_irrelevant flags t o u (to_type t) c,
          plain,
        )
        (pointer_of (build_golang_type conv net flags t (with_type o (to_type t)) c))

  -- A schema whose types are one type and "null", in either order, is built into a pointer to what
  -- the schema of that one type is built into, with the same promises and errors; if it is neither
  -- ignored, nor a reference, nor a union, and does not set x-nullable to true.
  pub build-nullable :
      (flags : Flags) (key t : Bytes) (o : Object) (c : Ctx)
      → t ≢ null
      → o.x_ignore ≡ false
      → o.ref ≡ []
      → has_variants o ≡ false
      → is_true o.x_nullable ≡ false
      → (build conv net flags key (with_type o (to_types (t ∷ null ∷ []))) c
          ≡ to_pointer (build conv net flags key (with_type o (to_type t)) c))
        × (build conv net flags key (with_type o (to_types (null ∷ t ∷ []))) c
            ≡ to_pointer (build conv net flags key (with_type o (to_type t)) c))
  unfolding build build_typed build_golang_type build_named_type build_lang_struct build_lang_array
      additional_fields items_type
  build-nullable flags key t o c h ignored no_ref no_variants plain =
      rw (ignored, no_ref, eq_refl ⦃e = bytes_eq⦄ [], no_variants)
        (
          build_typed-nullable flags t o (to_types (t ∷ null ∷ [])) c plain
              (get_type_name-nullable t h),
          build_typed-nullable flags t o (to_types (null ∷ t ∷ [])) c plain
              (get_type_name-null_first t h),
        )
