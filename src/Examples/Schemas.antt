-- ===== src/Examples/Schemas.antt =====
-- A schema object with one property, and a walk over a document with two objects.
use go_asyncapi.Common.{
  ℕ, List, Bytes, ◌++◌, ◌≡◌, ◌≢◌, refl, true, false, none, some, [], ◌∷◌, codes, ne_of_false,
  list_beq, arith, All, bytes_eq,
}
use go_asyncapi.Jsonpointer.{UrlPackage}
use go_asyncapi.Jsonpointer.Escape.{AreBytes}
use go_asyncapi.Types.OrderedMap.{entries}
use go_asyncapi.Types.Stack.{top, items}
use go_asyncapi.Names.{CasePackage}
use go_asyncapi.Context.{Result, returned, ◌>>=◌, CompileContext, path_stack, put_artifact}
use go_asyncapi.Schema.{Object}
use go_asyncapi.Schema.Parts.{zero_schema, to_type, has_variants}
use go_asyncapi.Schema.Build.{build}
use go_asyncapi.Schema.Promises.{Ready}
use go_asyncapi.Schema.Registered.{Registered, build-Registered}
use go_asyncapi.Schema.Nullable.{to_types, with_type, null, to_pointer, build-nullable}
use go_asyncapi.Walk.{
  StructField, Fields, struct_value, struct_field, scalar, ordered_map, pair, no_pairs, no_fields,
  walk, at_stack,
}
use go_asyncapi.Walk.Order.{below, compile_all, KeepsStack}
use go_asyncapi.Walk.Traversal.{walk-compile_all}
use go_asyncapi.Walk.Leads.{Leads}
use go_asyncapi.Walk.Places.{StandsBelow, stack_keys}
use go_asyncapi.Walk.Reached.{Reached, walk-StandsBelow}

abbrev same_case : CasePackage
same_case = record { pascal_case = λ s. s; camel_case = λ s. s; walk = λ patterns s. [] }

abbrev net : UrlPackage
net = record { url_parse = λ s. none; url_string = λ u. u.path; trim_space = λ s. s }

abbrev context : {A : Type 0} {L : Type 0} → CompileContext A L
context = record {
  storage = record {
    url = record { uri = none; fs_path = codes "d"; pointer = [] };
    external_refs = [];
    artifacts = [];
    promises = [];
    list_promises = [];
  };
  stack = record { stack = record { key = codes "a"; flags = [] } ∷ [] };
}

abbrev person : Object
person = record {
  own = zero_schema;
  schema_type = some (to_type (codes "object"));
  additional_properties = none;
  all_of = [];
  any_of = [];
  one_of = [];
  format = [];
  items_schema = none;
  properties = record {
    data_map = some ((codes "b", zero_schema) ∷ []);
    keys_list = codes "b" ∷ [];
  };
  required = [];
  title = [];
  x_nullable = none;
  x_ignore = false;
  ref = [];
}

context-Ready : Ready context
unfolding top path_stack items
context-Ready = ((_, refl), ((omega arith, tt), tt))

person-bytes : All (λ e. AreBytes e.0) (entries zero_schema person.properties)
unfolding entries
person-bytes = ((omega arith, tt), tt)

build-Registered_example :
    Registered net person context (build same_case net [] (codes "a") person context)
build-Registered_example =
    build-Registered net same_case (λ s h. refl) [] (codes "a") person context context-Ready
      person-bytes

not_null : codes "string" ≢ null
unfolding list_beq
not_null = ne_of_false (codes "string") null refl

no_variants : has_variants person ≡ false
no_variants = refl

build-nullable_example :
    (build same_case net []
        (codes "a")
        (with_type person (to_types (codes "string" ∷ null ∷ [])))
        context
      ≡ to_pointer (
          build same_case net [] (codes "a") (with_type person (to_type (codes "string"))) context))
    × (build same_case net []
          (codes "a")
          (with_type person (to_types (null ∷ codes "string" ∷ [])))
          context
        ≡ to_pointer (
            build same_case net []
              (codes "a")
              (with_type person (to_type (codes "string")))
              context))
build-nullable_example =
    build-nullable same_case net [] (codes "a") (codes "string") person context not_null refl refl
      no_variants refl

abbrev schemas : StructField
schemas = record {
  name = codes "Schemas";
  exported = true;
  anonymous = false;
  json_tag = some (codes "schemas,omitzero");
  tool_tag = some (codes "selectable");
}

abbrev document : Fields
document =
    struct_field schemas (ordered_map (some 1) (pair (codes "x") (scalar (some 2)) no_pairs))
      no_fields

abbrev compile : ℕ → CompileContext ℕ ℕ → Result (CompileContext ℕ ℕ)
compile m c = returned (put_artifact m c)

abbrev here : CompileContext ℕ ℕ
here = context

here_keeps : All (KeepsStack compile) (below (struct_value none document) here.stack)
unfolding put_artifact
here_keeps = (λ c. refl, (λ c. refl, tt))

walk-compile_all_example : walk compile (struct_value none document) context ≡ (
    compile_all compile (below (struct_value none document) here.stack) context >>= λ c1.
    returned (at_stack here.stack c1))
walk-compile_all_example = walk-compile_all compile none document here ((tt, tt), tt) here_keeps

abbrev tagged : CompileContext ℕ ℕ
tagged =
    at_stack
      (record { stack = record { key = []; flags = (codes "data_model", codes "v3") ∷ [] } ∷ [] })
      here

tagged_keeps : All (KeepsStack compile) (below (struct_value none document) tagged.stack)
unfolding put_artifact
tagged_keeps = (λ c. refl, (λ c. refl, tt))

walk-StandsBelow_example :
    (walk compile (struct_value none document) tagged ≡ (
      compile_all compile (below (struct_value none document) tagged.stack) tagged >>= λ c1.
      returned (at_stack tagged.stack c1)))
    × All
        (StandsBelow (Leads (struct_value none document)) tagged.stack)
        (below (struct_value none document) tagged.stack)
    × ((ks : List Bytes) (n : ℕ)
        → Leads (struct_value none document) ks n
        → Reached
            (stack_keys tagged.stack ++ ks)
            n
            (below (struct_value none document) tagged.stack))
walk-StandsBelow_example = walk-StandsBelow compile none document tagged ((tt, tt), tt) tagged_keeps
