-- ===== src/Objects/Entities.antt =====
-- The build methods of the channels, servers and operations of internal/asyncapi and of what belongs
-- to them, and the Compile methods of all objects.
use go_asyncapi.Common.{
  Bool, false, not, ◌&&◌, ◌||◌, Option, none, some, List, [], ◌∷◌, Bytes, codes, ◌==◌, bytes_eq,
  if◌then◌else◌,
}
use go_asyncapi.Compilation.{CompilationOpts}
use go_asyncapi.Jsonpointer.{UrlPackage}
use go_asyncapi.Names.{CasePackage}
use go_asyncapi.Context.{Flags, ObjectPromise}
use go_asyncapi.Types.OrderedMap.{empty, keys, set_all}
use go_asyncapi.Schema.{
  ListPromise, active_servers, active_channels, active_operations, secured_servers,
  secured_operations,
}
use go_asyncapi.Schema.Location.{Location, located, refused, parse_runtime_expression}
use go_asyncapi.Schema.Parts.{coalesce_names, is_selectable}
use go_asyncapi.Objects
use go_asyncapi.Objects.{StandaloneRef}
use go_asyncapi.Objects.Monad.{
  Build, ◌>>=◌, pure, fail, list_promise, for_each, when, promise_of, promise_at, obj_name, is_some,
}
use go_asyncapi.Objects.Build.{
  Compiled, selectable_flag, build_values, register_ref, bindings_promise, security_promises,
  named_promise, ref_promises, messages_of, channel_of,
}
use go_asyncapi.Render
use go_asyncapi.Render.{
  schema_artifact, server_artifact, channel_artifact, operation_artifact, reply_artifact,
  reply_address_artifact, message_artifact, security_artifact, correlation_id_artifact,
  parameter_artifact, variable_artifact, bindings_artifact, async_api_artifact, dummy_server,
  dummy_channel, dummy_operation, dummy_reply, dummy_holder,
}

abbrev pub send : Bytes
send = codes "send"

abbrev pub receive : Bytes
receive = codes "receive"

abbrev pub made_channel :
    CompilationOpts
    → Objects.Channel
    → Bytes
    → Flags
    → List ObjectPromise
    → List (Bytes × ObjectPromise)
    → List ObjectPromise
    → ListPromise
    → ListPromise
    → Option ObjectPromise
    → Compiled
made_channel opts o name flags servers parameters messages all_servers operations bindings =
    channel_artifact (record {
      original_name = name;
      address = o.address;
      dummy = false;
      is_selectable = is_selectable flags;
      is_publisher = opts.generate_publishers;
      is_subscriber = opts.generate_subscribers;
      servers_promises = servers;
      all_active_servers_promise = some all_servers;
      parameter_promises = set_all empty parameters;
      messages_promises = messages;
      all_active_operations_promise = some operations;
      bindings_promise = bindings;
    })

abbrev pub made_server :
    CompilationOpts
    → Objects.Server
    → Bytes
    → Flags
    → ListPromise
    → Option ObjectPromise
    → List ObjectPromise
    → List (Bytes × ObjectPromise)
    → Compiled
made_server opts o name flags channels bindings security variables = server_artifact (record {
  original_name = name;
  host = o.host;
  pathname = o.pathname;
  protocol = o.protocol;
  protocol_version = o.protocol_version;
  dummy = false;
  is_selectable = is_selectable flags;
  is_publisher = opts.generate_publishers;
  is_subscriber = opts.generate_subscribers;
  all_active_channels_promise = some channels;
  variables_promises = set_all empty variables;
  bindings_promise = bindings;
  security_scheme_promises = security;
})

abbrev pub made_operation :
    CompilationOpts
    → Objects.Operation
    → Bytes
    → Flags
    → ObjectPromise
    → Option ObjectPromise
    → List ObjectPromise
    → List ObjectPromise
    → Option ObjectPromise
    → Compiled
made_operation opts o name flags channel bindings security messages reply =
    operation_artifact (record {
      original_name = name;
      dummy = false;
      is_selectable = is_selectable flags;
      is_publisher = (o.action == send) && opts.generate_publishers;
      is_subscriber = (o.action == receive) && opts.generate_subscribers;
      is_reply_publisher = is_some o.reply && (o.action == receive) && opts.generate_publishers;
      is_reply_subscriber = is_some o.reply && (o.action == send) && opts.generate_subscribers;
      channel_promise = some channel;
      bindings_promise = bindings;
      messages_promises = messages;
      use_all_channel_messages = not (is_some o.messages);
      operation_reply_promise = reply;
      security_scheme_promises = security;
    })

abbrev pub made_reply :
    Objects.OperationReply
    → Bytes
    → Option ObjectPromise
    → Option ObjectPromise
    → List ObjectPromise
    → Compiled
made_reply o name address channel messages = reply_artifact (record {
  original_name = name;
  operation_reply_address_promise = address;
  channel_promise = channel;
  messages_promises = messages;
  use_all_channel_messages = not (is_some o.messages);
  dummy = false;
})

abbrev pub made_security_scheme :
    Objects.SecurityScheme → Bytes → ListPromise → ListPromise → Compiled
made_security_scheme o name servers operations = security_artifact (record {
  original_name = name;
  scheme_type = o.scheme_type;
  description = o.description;
  params = build_values o;
  dummy = o.x_ignore;
  all_secured_servers_promise = some servers;
  all_secured_operations_promise = some operations;
})

module _ (conv : CasePackage) (net : UrlPackage) where
  -- A reference, or what is built where there is none.
  abbrev pub or_ref : Bytes → Bytes → Option Bool → Build Compiled → Build Compiled
  or_ref ref name selectable m =
      if not (ref == []) then register_ref conv net ref name selectable else m

  unfoldable pub new_channel : CompilationOpts → Objects.Channel → Bytes → Flags → Build Compiled
  new_channel opts o name flags = do
    servers ← ref_promises conv net o.servers
    all_servers ← list_promise active_servers
    parameters ← for_each (named_promise conv net (codes "parameters")) (keys o.parameters)
    messages ← for_each (λ k. promise_at net (codes "messages" ∷ k ∷ [])) (keys o.messages)
    operations ← list_promise active_operations
    bindings ← bindings_promise conv net o.bindings
    pure
        (made_channel opts o name flags servers parameters messages all_servers operations bindings)

  unfoldable pub build_channel : CompilationOpts → Objects.Channel → Bytes → Flags → Build Compiled
  build_channel opts o channel_key flags =
      if o.x_ignore || (not opts.generate_publishers && not opts.generate_subscribers)
      then pure (channel_artifact dummy_channel)
      else or_ref o.ref channel_key (selectable_flag flags)
          (new_channel opts o (coalesce_names o.x_go_name channel_key) flags)

  unfoldable pub new_server : CompilationOpts → Objects.Server → Bytes → Flags → Build Compiled
  new_server opts o name flags = do
    channels ← list_promise active_channels
    bindings ← bindings_promise conv net o.bindings
    security ← security_promises conv net o.security
    variables ← for_each (named_promise conv net (codes "variables")) (keys o.variables)
    pure (made_server opts o name flags channels bindings security variables)

  unfoldable pub build_server : CompilationOpts → Objects.Server → Bytes → Flags → Build Compiled
  build_server opts o server_key flags =
      if o.x_ignore
      then pure (server_artifact dummy_server)
      else or_ref o.ref server_key (selectable_flag flags)
          (new_server opts o (coalesce_names o.x_go_name server_key) flags)

  -- An operation that has a channel.
  unfoldable pub new_operation :
      CompilationOpts → Objects.Operation → StandaloneRef → Bytes → Flags → Build Compiled
  new_operation opts o channel_ref name flags = do
    channel ← promise_of net channel_ref.ref
    bindings ← bindings_promise conv net o.bindings
    security ← security_promises conv net o.security
    messages ← messages_of conv net o.messages
    reply ← when (is_some o.reply) (promise_at net (codes "reply" ∷ []))
    pure (made_operation opts o name flags channel bindings security messages reply)

  abbrev pub operation_with :
      CompilationOpts → Objects.Operation → Bytes → Flags → Option StandaloneRef → Build Compiled
  operation_with opts o name flags none = fail (codes "channel field is empty")
  operation_with opts o name flags (some r) = new_operation opts o r name flags

  unfoldable pub build_operation :
      CompilationOpts → Objects.Operation → Bytes → Flags → Build Compiled
  build_operation opts o operation_key flags =
      if o.x_ignore
      then pure (operation_artifact dummy_operation)
      else or_ref o.ref operation_key (selectable_flag flags)
          (operation_with opts o operation_key flags o.channel)

  unfoldable pub new_reply : Objects.OperationReply → Bytes → Build Compiled
  new_reply o name = do
    address ← when (is_some o.address) (promise_at net (codes "address" ∷ []))
    channel ← channel_of conv net o.channel
    messages ← messages_of conv net o.messages
    pure (made_reply o name address channel messages)

  unfoldable pub build_reply : Objects.OperationReply → Bytes → Build Compiled
  build_reply o operation_key =
      if o.x_ignore
      then pure (reply_artifact dummy_reply)
      else or_ref o.ref operation_key none (new_reply o operation_key)

  -- The artifact of a location, or the error.
  abbrev pub at_location :
      (Render.ExpressionHolder → Compiled) → Bytes → Bytes → Bytes → Location → Build Compiled
  at_location make name description text (refused e) = fail (codes "parse runtime expression")
  at_location make name description text (located kind path) = pure (
      make (record {
        original_name = name;
        description = description;
        dummy = false;
        expression =
            some (record {
              original_expression = text;
              struct_field_kind = kind;
              location_path = path;
            });
      }))

  unfoldable pub build_reply_address : Objects.OperationReplyAddress → Bytes → Build Compiled
  unfolding parse_runtime_expression
  build_reply_address o operation_key =
      if o.x_ignore
      then pure (reply_address_artifact dummy_holder)
      else or_ref o.ref operation_key none (
          at_location reply_address_artifact operation_key o.description o.location
            (parse_runtime_expression o.location))

  unfoldable pub build_correlation_id : Objects.CorrelationId → Bytes → Build Compiled
  unfolding parse_runtime_expression
  build_correlation_id o correlation_id_key =
      if o.x_ignore
      then pure (correlation_id_artifact dummy_holder)
      else or_ref o.ref correlation_id_key none (
          at_location correlation_id_artifact correlation_id_key o.description o.location
            (parse_runtime_expression o.location))

  -- A security scheme that has a type.
  unfoldable pub new_security_scheme : Objects.SecurityScheme → Bytes → Build Compiled
  unfolding build_values
  new_security_scheme o scheme_name = do
    name ← obj_name conv scheme_name []
    servers ← list_promise secured_servers
    operations ← list_promise secured_operations
    pure (made_security_scheme o name servers operations)

  unfoldable pub build_security_scheme : Objects.SecurityScheme → Bytes → Build Compiled
  build_security_scheme o security_scheme_key = or_ref o.ref security_scheme_key none (
      if o.scheme_type == []
      then fail (codes "security scheme type is empty")
      else new_security_scheme o (coalesce_names o.x_go_name security_scheme_key))

  unfoldable pub new_parameter : Objects.Parameter → Bytes → Build Compiled
  new_parameter o par_name = do name ← obj_name conv par_name []; pure (parameter_artifact name)

  unfoldable pub build_parameter : Objects.Parameter → Bytes → Build Compiled
  build_parameter o parameter_key =
      or_ref o.ref parameter_key none (new_parameter o (coalesce_names o.x_go_name parameter_key))

  unfoldable pub build_server_variable : Objects.ServerVariable → Bytes → Build Compiled
  build_server_variable o server_variable_key = or_ref o.ref server_variable_key none (
      pure (
        variable_artifact (record {
          original_name = server_variable_key;
          enum_values = o.enum_values;
          default_value = o.default_value;
          description = o.description;
        })))
