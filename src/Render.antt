-- ===== src/Render.antt =====
-- The artifacts of internal/render. A record is generic in its promises: `P` is what stands for a
-- lang.Promise and `L` what stands for a lang.ListPromise. The compilation has references in their
-- place, the rendering the targets that the linker has assigned. Positions are set elsewhere.
pub mod Linked
pub mod Related
pub mod Sorting
pub mod Bound
use go_asyncapi.Common.{Bool, true, false, Option, none, List, [], Bytes, ℕ}
use go_asyncapi.Types.OrderedMap.{OrderedMap, empty}
use go_asyncapi.Schema.{GoType}
use go_asyncapi.Schema.Location.{StructFieldKind}

pub record Server (P : Type 0) (L : Type 0) : Type 0 where
  pub original_name : Bytes
  pub host : Bytes
  pub pathname : Bytes
  pub protocol : Bytes
  pub protocol_version : Bytes
  pub dummy : Bool
  pub is_selectable : Bool
  pub is_publisher : Bool
  pub is_subscriber : Bool
  pub all_active_channels_promise : Option L
  pub variables_promises : OrderedMap Bytes P
  pub bindings_promise : Option P
  pub security_scheme_promises : List P

pub record Channel (P : Type 0) (L : Type 0) : Type 0 where
  pub original_name : Bytes
  pub address : Bytes
  pub dummy : Bool
  pub is_selectable : Bool
  pub is_publisher : Bool
  pub is_subscriber : Bool
  pub servers_promises : List P
  pub all_active_servers_promise : Option L
  pub parameter_promises : OrderedMap Bytes P
  pub messages_promises : List P
  pub all_active_operations_promise : Option L
  pub bindings_promise : Option P

pub record Operation (P : Type 0) : Type 0 where
  pub original_name : Bytes
  pub dummy : Bool
  pub is_selectable : Bool
  pub is_publisher : Bool
  pub is_subscriber : Bool
  pub is_reply_publisher : Bool
  pub is_reply_subscriber : Bool
  pub channel_promise : Option P
  pub bindings_promise : Option P
  pub messages_promises : List P
  pub use_all_channel_messages : Bool
  pub operation_reply_promise : Option P
  pub security_scheme_promises : List P

pub record OperationReply (P : Type 0) : Type 0 where
  pub original_name : Bytes
  pub operation_reply_address_promise : Option P
  pub channel_promise : Option P
  pub messages_promises : List P
  pub use_all_channel_messages : Bool
  pub dummy : Bool

pub record BaseRuntimeExpression : Type 0 where
  pub original_expression : Bytes
  pub struct_field_kind : StructFieldKind
  pub location_path : List Bytes

-- OperationReplyAddress and CorrelationID, which have the same fields; `none` is the zero
-- expression.
pub record ExpressionHolder : Type 0 where
  pub original_name : Bytes
  pub description : Bytes
  pub dummy : Bool
  pub expression : Option BaseRuntimeExpression

pub record Message (P : Type 0) (L : Type 0) : Type 0 where
  pub original_name : Bytes
  pub content_type : Bytes
  pub dummy : Bool
  pub is_selectable : Bool
  pub is_publisher : Bool
  pub is_subscriber : Bool
  pub out_type : Option GoType
  pub in_type : Option GoType
  pub headers_type_promise : Option P
  pub headers_type_default : Option GoType
  pub payload_type_promise : Option P
  pub payload_type_default : Option GoType
  pub all_active_channels_promise : Option L
  pub all_active_operations_promise : Option L
  pub bindings_promise : Option P
  pub correlation_id_promise : Option P
  pub async_api_promise : Option P

pub record SecuritySchemeOauthFlowParams : Type 0 where
  pub authorization_url : Bytes
  pub token_url : Bytes
  pub refresh_url : Bytes
  pub available_scopes : OrderedMap Bytes Bytes

pub record SecuritySchemeOauthFlowsParams : Type 0 where
  pub implicit : Option SecuritySchemeOauthFlowParams
  pub password : Option SecuritySchemeOauthFlowParams
  pub client_credentials : Option SecuritySchemeOauthFlowParams
  pub authorization_code : Option SecuritySchemeOauthFlowParams

pub record SecuritySchemeParams : Type 0 where
  pub location : Bytes
  pub scheme : Bytes
  pub bearer_format : Bytes
  pub flows : Option SecuritySchemeOauthFlowsParams
  pub open_id_connect_url : Bytes
  pub scopes : List Bytes

pub record SecurityScheme (L : Type 0) : Type 0 where
  pub original_name : Bytes
  pub scheme_type : Bytes
  pub description : Bytes
  pub params : SecuritySchemeParams
  pub dummy : Bool
  pub all_secured_servers_promise : Option L
  pub all_secured_operations_promise : Option L

pub record ServerVariable : Type 0 where
  pub original_name : Bytes
  pub enum_values : List Bytes
  pub default_value : Bytes
  pub description : Bytes

-- The decoded contents of a protocol are a number.
pub record Bindings : Type 0 where
  pub original_name : Bytes
  pub values : OrderedMap Bytes ℕ

-- `ref_artifact` is a lang.Ref with its name and its selectable flag, nil if there is none; a
-- parameter has a name only, and the root object its default content type.
pub data Artifact (P : Type 0) (L : Type 0) : Type 0 where
  schema_artifact : GoType → Artifact P L
  server_artifact : Server P L → Artifact P L
  channel_artifact : Channel P L → Artifact P L
  operation_artifact : Operation P → Artifact P L
  reply_artifact : OperationReply P → Artifact P L
  reply_address_artifact : ExpressionHolder → Artifact P L
  message_artifact : Message P L → Artifact P L
  security_artifact : SecurityScheme L → Artifact P L
  correlation_id_artifact : ExpressionHolder → Artifact P L
  parameter_artifact : Bytes → Artifact P L
  variable_artifact : ServerVariable → Artifact P L
  bindings_artifact : Bindings → Artifact P L
  async_api_artifact : Bytes → Artifact P L
  ref_artifact : P → Bytes → Option Bool → Artifact P L

module _ {P : Type 0} {L : Type 0} where
  -- The artifacts that are ignored: zero values that are marked so.
  abbrev pub dummy_server : Server P L
  dummy_server = record {
    original_name = [];
    host = [];
    pathname = [];
    protocol = [];
    protocol_version = [];
    dummy = true;
    is_selectable = false;
    is_publisher = false;
    is_subscriber = false;
    all_active_channels_promise = none;
    variables_promises = empty;
    bindings_promise = none;
    security_scheme_promises = [];
  }

  abbrev pub dummy_channel : Channel P L
  dummy_channel = record {
    original_name = [];
    address = [];
    dummy = true;
    is_selectable = false;
    is_publisher = false;
    is_subscriber = false;
    servers_promises = [];
    all_active_servers_promise = none;
    parameter_promises = empty;
    messages_promises = [];
    all_active_operations_promise = none;
    bindings_promise = none;
  }

  abbrev pub dummy_message : Message P L
  dummy_message = record {
    original_name = [];
    content_type = [];
    dummy = true;
    is_selectable = false;
    is_publisher = false;
    is_subscriber = false;
    out_type = none;
    in_type = none;
    headers_type_promise = none;
    headers_type_default = none;
    payload_type_promise = none;
    payload_type_default = none;
    all_active_channels_promise = none;
    all_active_operations_promise = none;
    bindings_promise = none;
    correlation_id_promise = none;
    async_api_promise = none;
  }

module _ {P : Type 0} where
  abbrev pub dummy_operation : Operation P
  dummy_operation = record {
    original_name = [];
    dummy = true;
    is_selectable = false;
    is_publisher = false;
    is_subscriber = false;
    is_reply_publisher = false;
    is_reply_subscriber = false;
    channel_promise = none;
    bindings_promise = none;
    messages_promises = [];
    use_all_channel_messages = false;
    operation_reply_promise = none;
    security_scheme_promises = [];
  }

  abbrev pub dummy_reply : OperationReply P
  dummy_reply = record {
    original_name = [];
    operation_reply_address_promise = none;
    channel_promise = none;
    messages_promises = [];
    use_all_channel_messages = false;
    dummy = true;
  }

abbrev pub dummy_holder : ExpressionHolder
dummy_holder = record { original_name = []; description = []; dummy = true; expression = none }
