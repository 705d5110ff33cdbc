-- ===== src/Examples/Documents.antt =====
-- A document with a channel that has one message.
use go_asyncapi.Common.{
  ℕ, zero, suc, ◌≡◌, refl, true, false, none, some, List, [], ◌∷◌, codes, arith, bytes_eq,
}
use go_asyncapi.Common.GoMap.{has, lookup}
use go_asyncapi.Common.Strings.{split, has_prefix}
use go_asyncapi.Compilation.{CompilationOpts}
use go_asyncapi.Jsonpointer.{UrlPackage, parse, parse_reference}
use go_asyncapi.Names.{CasePackage}
use go_asyncapi.Context.{Storage, path_stack}
use go_asyncapi.Types.OrderedMap.{OrderedMap, set, empty, keys}
use go_asyncapi.Types.OrderedMap.Invariant.{IsValid-empty, set-IsValid}
use go_asyncapi.Types.Stack.{top, items, push}
use go_asyncapi.Schema.{ListPromise}
use go_asyncapi.Schema.Parts.{Ctx}
use go_asyncapi.Schema.Promises.{Ready}
use go_asyncapi.Objects
use go_asyncapi.Objects.Build.{Compiled}
use go_asyncapi.Objects.Compile.{
  Decoders, AnyObject, channel_object, message_object, async_api_object, build_any, compile_any,
}
use go_asyncapi.Objects.Effects.{Outcome}
use go_asyncapi.Objects.Steps.{Parses}
use go_asyncapi.Objects.Registered.{promises_of, lists_of, KeysReady}
use go_asyncapi.Objects.Fitting.{Fits, Faulty}
use go_asyncapi.Objects.Outcomes.{build_any-Outcome}
use go_asyncapi.Objects.Positions.{AllStand, start, Whole}
use go_asyncapi.Objects.Walked.{compile_document-Whole}
use go_asyncapi.Walk.{
  StructField, Fields, struct_value, struct_field, scalar, ordered_map, pair, no_pairs, no_fields,
  compile_document, pushed, get_field_json_name, parse_tags,
}
use go_asyncapi.Walk.Order.{below}

abbrev same_case : CasePackage
same_case = record { pascal_case = λ s. s; camel_case = λ s. s; walk = λ patterns s. [] }

abbrev net : UrlPackage
net = record { url_parse = λ s. none; url_string = λ u. u.path; trim_space = λ s. s }

abbrev decoders : Decoders
decoders = record {
  json_unmarshal = λ s. none;
  node_decode = λ n. some n;
  version_valid = λ s. true;
}

abbrev opts : CompilationOpts
opts = record { allow_remote_refs = false; generate_publishers = true; generate_subscribers = true }

abbrev message : Objects.Message
message = record {
  headers = none;
  payload = none;
  correlation_id = none;
  content_type = [];
  summary = codes "s";
  description = [];
  bindings = none;
  x_go_name = [];
  x_ignore = false;
  ref = [];
}

abbrev messages : OrderedMap (List ℕ) Objects.Message
messages = set empty (codes "m") message

abbrev channel : Objects.Channel
channel = record {
  address = codes "a";
  messages = messages;
  servers = [];
  parameters = empty;
  bindings = none;
  x_go_name = [];
  x_ignore = false;
  ref = [];
}

abbrev objects : ℕ → AnyObject
objects zero = async_api_object (record { version = codes "3.0.0"; default_content_type = [] })
objects (suc zero) = channel_object channel
objects (suc (suc n)) = message_object message

abbrev plain_field : List ℕ → StructField
plain_field name = record {
  name = name;
  exported = true;
  anonymous = false;
  json_tag = none;
  tool_tag = none;
}

abbrev channel_fields : Fields
channel_fields =
    struct_field (plain_field (codes "messages"))
      (ordered_map none (pair (codes "m") (scalar (some 2)) no_pairs)) no_fields

abbrev document : Fields
document =
    struct_field (plain_field (codes "channels"))
      (ordered_map none (pair (codes "c") (struct_value (some 1) channel_fields) no_pairs))
      no_fields

abbrev store : Storage Compiled ListPromise
store = record {
  url = record { uri = none; fs_path = codes "d"; pointer = [] };
  external_refs = [];
  artifacts = [];
  promises = [];
  list_promises = [];
}

abbrev context : Ctx
context = record {
  storage = store;
  stack = record { stack = record { key = codes "c"; flags = [] } ∷ [] };
}

no_ref : Parses net []
unfolding parse parse_reference split has_prefix
no_ref = (_, refl)

no_parameters : KeysReady {V = Objects.Parameter} empty
unfolding keys
no_parameters = (IsValid-empty, tt)

some_messages : KeysReady messages
unfolding keys set has lookup
some_messages = (set-IsValid empty (codes "m") message IsValid-empty, ((ground arith, tt), tt))

channel-Fits : Fits net (channel_object channel)
channel-Fits = (no_ref, tt, no_parameters, some_messages)

context-Ready : Ready context
unfolding top path_stack items
context-Ready = ((_, refl), ((ground arith, tt), tt))

build_any-Outcome_example :
    Outcome net
      (Faulty decoders (channel_object channel))
      (λ a ps ls. (ps ≡ promises_of a) × (ls ≡ lists_of a))
      context
      (build_any decoders same_case net opts
        (channel_object channel)
        (record { key = codes "c"; flags = [] })
        context)
build_any-Outcome_example =
    build_any-Outcome decoders same_case net opts (λ s h. refl) (channel_object channel)
      (record { key = codes "c"; flags = [] }) context context-Ready channel-Fits tt tt

all_stand : AllStand net objects ((start, 0) ∷ below (struct_value (some 0) document) start)
unfolding top items push pushed get_field_json_name parse_tags
all_stand = (
  tt,
  (
    (((_, refl), (ground arith, (ground arith, tt))), (channel-Fits, tt)),
    (
      (
        ((_, refl), (ground arith, (ground arith, (ground arith, (ground arith, tt))))),
        ((no_ref, no_ref), λ e. cc e),
      ),
      tt,
    ),
  ),
)

compile_document-Whole_example :
    Whole decoders objects ((start, 0) ∷ below (struct_value (some 0) document) start) (
      compile_document
        (λ m c. compile_any decoders same_case net opts (objects m) c)
        store
        (struct_value (some 0) document)
        context)
compile_document-Whole_example =
    compile_document-Whole decoders same_case net opts (λ s h. refl) objects store 0 document
      context refl refl ((((tt, tt), tt), tt), tt) all_stand
