-- ===== src/Objects/Build.antt =====
-- The build methods of internal/asyncapi, but for schemas.
use go_asyncapi.Common.{
  ℕ, suc, Bool, true, false, not, ◌||◌, Option, none, some, List, [], ◌∷◌, ◌++◌, Bytes, codes, ◌==◌,
  bytes_eq, if◌then◌else◌,
}
use go_asyncapi.Compilation.{CompilationOpts}
use go_asyncapi.Jsonpointer.{UrlPackage}
use go_asyncapi.Linker.{origin_ref}
use go_asyncapi.Names.{CasePackage, to_golang_name}
use go_asyncapi.Context.{Flags, ObjectPromise}
use go_asyncapi.Schema.{
  ListPromise, active_channels, active_operations, GoType, go_struct, go_map, type_promise, field,
  no_fields,
}
use go_asyncapi.Schema.Parts.{
  coalesce_names, is_selectable, itoa, plain_type, inline_base, no_info, no_names,
}
use go_asyncapi.Objects
use go_asyncapi.Objects.{StandaloneRef, OauthFlow, OauthFlows}
use go_asyncapi.Objects.Monad.{
  Build, ◌>>=◌, pure, crash, path_here, list_promise, for_each, when, registered, promise_of,
  promise_at, obj_name, is_some,
}
use go_asyncapi.Render
use go_asyncapi.Render.{
  Artifact, server_artifact, channel_artifact, operation_artifact, reply_artifact,
  reply_address_artifact, message_artifact, security_artifact, correlation_id_artifact,
  parameter_artifact, variable_artifact, bindings_artifact, async_api_artifact, ref_artifact,
  dummy_server, dummy_channel, dummy_operation, dummy_reply, dummy_message, dummy_holder,
}

abbrev pub Compiled : Type 0
Compiled = Artifact ObjectPromise ListPromise

-- lo.Ternary(isSelectable, lo.ToPtr(true), nil)
abbrev pub selectable_flag : Flags → Option Bool
selectable_flag flags = if is_selectable flags then some true else none

-- The name that a message's $ref is registered with: its key among the components, none elsewhere.
-- `none` is the panic on a path of too few parts.
abbrev pub message_ref_name : List Bytes → Bytes → Option Bytes
message_ref_name [] key = none
message_ref_name (a ∷ []) key = if a == codes "components" then none else some []
message_ref_name (a ∷ b ∷ path) key =
    some (if not (a == codes "components") || not (b == codes "messages") then [] else key)

abbrev pub or_crash : {A : Type 0} → Option A → Build A
or_crash none = crash
or_crash (some a) = pure a

-- utils.JoinNonemptyStrings("\n", a, b)
abbrev pub join_nonempty : Bytes → Bytes → Bytes
join_nonempty a b = if a == [] then b else if b == [] then a else a ++ 10 ∷ b

abbrev pub set_oauth_params : Option OauthFlow → Option Render.SecuritySchemeOauthFlowParams
set_oauth_params none = none
set_oauth_params (some v) = some (record {
  authorization_url = v.authorization_url;
  token_url = v.token_url;
  refresh_url = v.refresh_url;
  available_scopes = v.available_scopes;
})

abbrev pub oauth_flows : Option OauthFlows → Option Render.SecuritySchemeOauthFlowsParams
oauth_flows none = none
oauth_flows (some fs) = some (record {
  implicit = set_oauth_params fs.implicit;
  password = set_oauth_params fs.password;
  client_credentials = set_oauth_params fs.client_credentials;
  authorization_code = set_oauth_params fs.authorization_code;
})

unfoldable pub build_values : Objects.SecurityScheme → Render.SecuritySchemeParams
build_values o = record {
  location = o.location;
  scheme = o.scheme;
  bearer_format = o.bearer_format;
  flows = oauth_flows o.flows;
  open_id_connect_url = o.open_id_connect_url;
  scopes = o.scopes;
}

-- The type of the headers and of the payload: the promise, or the default.
abbrev pub promised_type : Option ObjectPromise → GoType → GoType
promised_type none t = t
promised_type (some p) t = type_promise p

-- map[string]any and any
abbrev pub default_headers : GoType
default_headers =
    go_map (record (inline_base [] []) { has_definition = false }) no_info
      (plain_type (codes "string") false) (plain_type (codes "any") true)

abbrev pub default_payload : GoType
default_payload = plain_type (codes "any") true

-- The indexes of a slice, from one on.
abbrev pub indexes {ℓ} : {A : Type ℓ} → ℕ → List A → List ℕ
indexes index [] = []
indexes index (x ∷ xs) = index ∷ indexes (suc index) xs

abbrev pub made_message :
    CompilationOpts
    → Objects.Message
    → Bytes
    → Flags
    → ListPromise
    → ListPromise
    → ObjectPromise
    → Option ObjectPromise
    → Option ObjectPromise
    → GoType
    → GoType
    → Option ObjectPromise
    → Option ObjectPromise
    → Compiled
made_message opts o name flags channels operations async_api headers payload out in_struct bindings
      correlation =
    message_artifact (record {
      original_name = name;
      content_type = o.content_type;
      dummy = false;
      is_selectable = is_selectable flags;
      is_publisher = opts.generate_publishers;
      is_subscriber = opts.generate_subscribers;
      out_type = some out;
      in_type = some in_struct;
      headers_type_promise = headers;
      headers_type_default = some default_headers;
      payload_type_promise = payload;
      payload_type_default = some default_payload;
      all_active_channels_promise = some channels;
      all_active_operations_promise = some operations;
      bindings_promise = bindings;
      correlation_id_promise = correlation;
      async_api_promise = some async_api;
    })

module _ (conv : CasePackage) (net : UrlPackage) where
  -- registerRef
  abbrev pub register_ref : Bytes → Bytes → Option Bool → Build Compiled
  register_ref ref name selectable = do
    p ← registered net (record { ref = ref; origin = origin_ref })
    pure (ref_artifact p name selectable)

  -- The promises of the bindings, of the security schemes, of named parts and of references.
  abbrev pub bindings_promise : Option Objects.Bindings → Build (Option ObjectPromise)
  bindings_promise bindings = when (is_some bindings) (promise_at net (codes "bindings" ∷ []))

  abbrev pub security_promises : List Objects.SecurityScheme → Build (List ObjectPromise)
  security_promises security =
      for_each (λ i. promise_at net (codes "security" ∷ itoa i ∷ [])) (indexes 0 security)

  abbrev pub named_promise : Bytes → Bytes → Build (Bytes × ObjectPromise)
  named_promise part k = do p ← promise_at net (part ∷ k ∷ []); pure (k, p)

  abbrev pub ref_promises : List StandaloneRef → Build (List ObjectPromise)
  ref_promises refs = for_each (λ r. promise_of net r.ref) refs

  abbrev pub messages_of : Option (List StandaloneRef) → Build (List ObjectPromise)
  messages_of none = pure []
  messages_of (some refs) = ref_promises refs

  abbrev pub channel_of : Option StandaloneRef → Build (Option ObjectPromise)
  channel_of none = pure none
  channel_of (some r) = do p ← promise_of net r.ref; pure (some p)

  -- The struct of one direction; `exported` is that of the fields' names.
  abbrev pub in_out_struct : Objects.Message → Bytes → Bytes → Bool → GoType → GoType → GoType
  in_out_struct o struct_name note exported payload headers =
      go_struct
        (record (inline_base struct_name (join_nonempty (o.summary ++ note) o.description)) {
          has_definition = true;
        })
        no_info
        (field (record no_names { original_name = to_golang_name conv (codes "payload") exported })
          payload
          (field
            (record no_names { original_name = to_golang_name conv (codes "headers") exported })
            headers no_fields))

  unfoldable pub build_in_out_struct :
      Objects.Message → Bytes → Bytes → Bytes → Bool → GoType → GoType → Build GoType
  build_in_out_struct o name suffix note exported payload headers = do
    struct_name ← obj_name conv name suffix
    pure (in_out_struct o struct_name note exported payload headers)

  -- A message that is neither ignored nor a reference. The promise of the root object has a callback
  -- and no reference.
  unfoldable pub new_message : CompilationOpts → Objects.Message → Bytes → Flags → Build Compiled
  unfolding build_in_out_struct
  new_message opts o name flags = do
    channels ← list_promise active_channels
    operations ← list_promise active_operations
    async_api ← promise_of net []
    headers ← when (is_some o.headers) (promise_at net (codes "headers" ∷ []))
    payload ← when (is_some o.payload) (promise_at net (codes "payload" ∷ []))
    let payload_type = promised_type payload default_payload
    let headers_type = promised_type headers default_headers
    out ←
        build_in_out_struct o name (codes "Out") (codes " (Outbound Message)") true payload_type
          headers_type
    in_struct ←
        build_in_out_struct o name (codes "In") (codes " (Inbound Message)") false payload_type
          headers_type
    bindings ← bindings_promise o.bindings
    correlation ← when (is_some o.correlation_id) (promise_at net (codes "correlationId" ∷ []))
    pure (
        made_message opts o name flags channels operations async_api headers payload out in_struct
          bindings correlation)

  unfoldable pub build_message : CompilationOpts → Objects.Message → Bytes → Flags → Build Compiled
  build_message opts o message_key flags =
      if o.x_ignore
      then pure (message_artifact dummy_message)
      else if not (o.ref == [])
      then (do
        path ← path_here
        key ← or_crash (message_ref_name path message_key)
        register_ref o.ref key (selectable_flag flags))
      else new_message opts o (coalesce_names o.x_go_name message_key) flags
