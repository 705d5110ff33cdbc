-- ===== src/Objects/Compile.antt =====
-- The bindings and the root object of internal/asyncapi, and the Compile methods of all its objects.
use go_asyncapi.Common.{
  ℕ, Bool, not, ◌||◌, Option, none, some, [], ◌∷◌, Bytes, codes, ◌==◌, bytes_eq, if◌then◌else◌, eqb,
}
use go_asyncapi.Compilation.{CompilationOpts}
use go_asyncapi.Jsonpointer.{UrlPackage}
use go_asyncapi.Names.{CasePackage}
use go_asyncapi.Context.{DocumentTreeItem, Result, returned, failed, panicked, put_artifact}
use go_asyncapi.Types.Union.{Union2}
use go_asyncapi.Types.OrderedMap.{empty, set_all, entries}
use go_asyncapi.Schema
use go_asyncapi.Schema.{GoType}
use go_asyncapi.Schema.Build
use go_asyncapi.Schema.Parts.{Ctx}
use go_asyncapi.Objects
use go_asyncapi.Objects.Monad.{Build, ◌>>=◌, pure, fail, crash, top_here, for_each}
use go_asyncapi.Objects.Build.{Compiled, build_message}
use go_asyncapi.Objects.Entities.{
  or_ref, build_channel, build_server, build_operation, build_reply, build_reply_address,
  build_correlation_id, build_security_scheme, build_parameter, build_server_variable,
}
use go_asyncapi.Render.{schema_artifact, bindings_artifact, async_api_artifact}

-- Package encoding/json and yaml.v3, decoding into a map, and semver.IsValid.
pub record Decoders : Type 0 where
  pub json_unmarshal : Bytes → Option ℕ
  pub node_decode : ℕ → Option ℕ
  pub version_valid : Bytes → Bool

-- The objects that have a Compile method.
pub data AnyObject : Type 0 where
  schema_object : Schema.Object → AnyObject
  server_object : Objects.Server → AnyObject
  channel_object : Objects.Channel → AnyObject
  operation_object : Objects.Operation → AnyObject
  reply_object : Objects.OperationReply → AnyObject
  reply_address_object : Objects.OperationReplyAddress → AnyObject
  message_object : Objects.Message → AnyObject
  security_object : Objects.SecurityScheme → AnyObject
  correlation_id_object : Objects.CorrelationId → AnyObject
  parameter_object : Objects.Parameter → AnyObject
  variable_object : Objects.ServerVariable → AnyObject
  bindings_object : Objects.Bindings → AnyObject
  async_api_object : Objects.AsyncApi → AnyObject

abbrev pub decoded : Bytes → Bytes → Option ℕ → Build (Bytes × ℕ)
decoded message k none = fail message
decoded message k (some contents) = pure (k, contents)

-- The value at a key that is missing, which the iteration never reads.
abbrev pub no_value : Union2 Bytes ℕ
no_value = record { v0 = []; v1 = 0; selector = 0 }

module _ (decoders : Decoders) where
  abbrev pub decode_value : Bytes × Union2 Bytes ℕ → Build (Bytes × ℕ)
  decode_value (k, v) =
      if eqb v.selector 0
      then decoded (codes "json unmarshal") k (decoders.json_unmarshal v.v0)
      else if eqb v.selector 1
      then decoded (codes "yaml unmarshal") k (decoders.node_decode v.v1)
      else crash

  abbrev pub new_bindings : Objects.Bindings → Bytes → Build Compiled
  new_bindings o name = do
    values ← for_each decode_value (entries no_value o.protocol_values)
    pure (bindings_artifact (record { original_name = name; values = set_all empty values }))

  -- A version that is too old is only logged.
  unfoldable pub build_async_api : Objects.AsyncApi → Build Compiled
  build_async_api o =
      if (o.version == []) || not (decoders.version_valid (118 ∷ o.version))
      then fail (codes "bad asyncapi version")
      else pure (async_api_artifact o.default_content_type)

  module _ (conv : CasePackage) (net : UrlPackage) (opts : CompilationOpts) where
    unfoldable pub build_bindings : Objects.Bindings → Bytes → Build Compiled
    build_bindings o bindings_key =
        or_ref conv net o.ref bindings_key none (new_bindings o bindings_key)

    abbrev pub schema_built : Result (GoType × Ctx) → Result (Compiled × Ctx)
    schema_built (returned (t, c)) = returned (schema_artifact t, c)
    schema_built (failed message path) = failed message path
    schema_built panicked = panicked

    abbrev pub build_schema : Schema.Object → DocumentTreeItem → Build Compiled
    build_schema o item c = schema_built (Schema.Build.build conv net item.flags item.key o c)

    -- The build method at the item on top of the stack.
    unfoldable pub build_any : AnyObject → DocumentTreeItem → Build Compiled
    build_any (schema_object o) item = build_schema o item
    build_any (server_object o) item = build_server conv net opts o item.key item.flags
    build_any (channel_object o) item = build_channel conv net opts o item.key item.flags
    build_any (operation_object o) item = build_operation conv net opts o item.key item.flags
    build_any (reply_object o) item = build_reply conv net o item.key
    build_any (reply_address_object o) item = build_reply_address conv net o item.key
    build_any (message_object o) item = build_message conv net opts o item.key item.flags
    build_any (security_object o) item = build_security_scheme conv net o item.key
    build_any (correlation_id_object o) item = build_correlation_id conv net o item.key
    build_any (parameter_object o) item = build_parameter conv net o item.key
    build_any (variable_object o) item = build_server_variable conv net o item.key
    build_any (bindings_object o) item = build_bindings o item.key
    build_any (async_api_object o) item = build_async_api o

    abbrev pub put_built : Result (Compiled × Ctx) → Result Ctx
    put_built (returned (obj, c)) = returned (put_artifact obj c)
    put_built (failed message path) = failed message path
    put_built panicked = panicked

    abbrev pub compile_at : (DocumentTreeItem → Build Compiled) → Ctx → Result Ctx
    compile_at make c = put_built ((do item ← top_here; make item) c)

    -- The Compile methods; that of the root object does not read the stack.
    unfoldable pub compile_any : AnyObject → Ctx → Result Ctx
    unfolding build_any
    compile_any (async_api_object o) c = put_built (build_async_api o c)
    compile_any o c = compile_at (build_any o) c
