-- ===== src/Objects.antt =====
-- The AsyncAPI objects of internal/asyncapi other than schemas, as they are decoded from a document,
-- with the fields that their compilation reads.
pub mod Monad
pub mod Build
pub mod Entities
pub mod Compile
pub mod Effects
pub mod Steps
pub mod Registered
pub mod Adds
pub mod Fitting
pub mod Outcomes
pub mod Positions
pub mod Walked
use go_asyncapi.Common.{ℕ, Bool, Option, List, Bytes}
use go_asyncapi.Types.Union.{Union2}
use go_asyncapi.Types.OrderedMap.{OrderedMap}
use go_asyncapi.Schema.{Object}

pub record StandaloneRef : Type 0 where
  pub ref : Bytes

-- A value is raw JSON or a YAML node; a node is a number.
pub record Bindings : Type 0 where
  pub ref : Bytes
  pub protocol_values : OrderedMap Bytes (Union2 Bytes ℕ)

pub record OauthFlow : Type 0 where
  pub authorization_url : Bytes
  pub token_url : Bytes
  pub refresh_url : Bytes
  pub available_scopes : OrderedMap Bytes Bytes

pub record OauthFlows : Type 0 where
  pub implicit : Option OauthFlow
  pub password : Option OauthFlow
  pub client_credentials : Option OauthFlow
  pub authorization_code : Option OauthFlow

-- `location` is the field In.
pub record SecurityScheme : Type 0 where
  pub scheme_type : Bytes
  pub description : Bytes
  pub location : Bytes
  pub scheme : Bytes
  pub bearer_format : Bytes
  pub flows : Option OauthFlows
  pub open_id_connect_url : Bytes
  pub scopes : List Bytes
  pub x_go_name : Bytes
  pub x_ignore : Bool
  pub ref : Bytes

pub record ServerVariable : Type 0 where
  pub enum_values : List Bytes
  pub default_value : Bytes
  pub description : Bytes
  pub ref : Bytes

pub record Parameter : Type 0 where
  pub x_go_name : Bytes
  pub ref : Bytes

pub record CorrelationId : Type 0 where
  pub description : Bytes
  pub location : Bytes
  pub x_ignore : Bool
  pub ref : Bytes

pub record OperationReplyAddress : Type 0 where
  pub location : Bytes
  pub description : Bytes
  pub x_ignore : Bool
  pub ref : Bytes

pub record Server : Type 0 where
  pub host : Bytes
  pub protocol : Bytes
  pub protocol_version : Bytes
  pub pathname : Bytes
  pub variables : OrderedMap Bytes ServerVariable
  pub security : List SecurityScheme
  pub bindings : Option Bindings
  pub x_go_name : Bytes
  pub x_ignore : Bool
  pub ref : Bytes

pub record Message : Type 0 where
  pub headers : Option Object
  pub payload : Option Object
  pub correlation_id : Option CorrelationId
  pub content_type : Bytes
  pub summary : Bytes
  pub description : Bytes
  pub bindings : Option Bindings
  pub x_go_name : Bytes
  pub x_ignore : Bool
  pub ref : Bytes

pub record Channel : Type 0 where
  pub address : Bytes
  pub messages : OrderedMap Bytes Message
  pub servers : List StandaloneRef
  pub parameters : OrderedMap Bytes Parameter
  pub bindings : Option Bindings
  pub x_go_name : Bytes
  pub x_ignore : Bool
  pub ref : Bytes

pub record OperationReply : Type 0 where
  pub address : Option OperationReplyAddress
  pub channel : Option StandaloneRef
  pub messages : Option (List StandaloneRef)
  pub x_ignore : Bool
  pub ref : Bytes

pub record Operation : Type 0 where
  pub action : Bytes
  pub channel : Option StandaloneRef
  pub security : List SecurityScheme
  pub bindings : Option Bindings
  pub messages : Option (List StandaloneRef)
  pub reply : Option OperationReply
  pub x_ignore : Bool
  pub ref : Bytes

pub record AsyncApi : Type 0 where
  pub version : Bytes
  pub default_content_type : Bytes
