-- ===== src/Config.antt =====
-- The configuration file of cmd/go-asyncapi/config.go. An int64, a duration and a float64 are here
-- the number of their 64 bits, and a pointer is `none` or what it points to.
pub mod Merge
pub mod Unset
pub mod Settings
use go_asyncapi.Common.{ℕ, Bool, Option, List, Bytes}
use go_asyncapi.Types.OrderedMap.{OrderedMap}
use go_asyncapi.Types.Union.{Union2}

pub record ToolConfigLocator : Type 0 where
  pub allow_remote_references : Bool
  pub root_directory : Bytes
  pub timeout : ℕ
  pub command : Bytes

pub record ToolConfigLayoutRender : Type 0 where
  pub protocols : List Bytes
  pub template : Bytes
  pub file : Bytes
  pub package_name : Bytes

pub record ToolConfigCodeLayout : Type 0 where
  pub name_re : Bytes
  pub artifact_kinds : List Bytes
  pub module_url_re : Bytes
  pub path_re : Bytes
  pub protocols : List Bytes
  pub negated : Bool
  pub render : ToolConfigLayoutRender

pub record ToolConfigCodeUtilProtocol : Type 0 where
  pub protocol : Bytes
  pub template_directory : Bytes

pub record ToolConfigCodeUtil : Type 0 where
  pub directory : Bytes
  pub custom : List ToolConfigCodeUtilProtocol

pub record ToolConfigImplementationProtocol : Type 0 where
  pub protocol : Bytes
  pub name : Bytes
  pub disable : Bool
  pub template_directory : Bytes
  pub package_name : Bytes

pub record ToolConfigCodeImplementation : Type 0 where
  pub directory : Bytes
  pub disable : Bool
  pub custom : List ToolConfigImplementationProtocol

pub record ToolConfigCode : Type 0 where
  pub only_publish : Bool
  pub only_subscribe : Bool
  pub disable_formatting : Bool
  pub target_dir : Bytes
  pub layout : List ToolConfigCodeLayout
  pub preamble_template : Bytes
  pub util : ToolConfigCodeUtil
  pub implementation : ToolConfigCodeImplementation

pub record ToolConfigClient : Type 0 where
  pub output_file : Bytes
  pub output_source_file : Bytes
  pub keep_source : Bool
  pub go_mod_template : Bytes
  pub temp_dir : Bytes

pub record ToolConfigInfraServerOpt : Type 0 where
  pub server_name : Bytes
  pub variables : Union2 (OrderedMap Bytes Bytes) (List (OrderedMap Bytes Bytes))

pub record ToolConfigInfra : Type 0 where
  pub server_opts : List ToolConfigInfraServerOpt
  pub engine : Bytes
  pub output_file : Bytes

pub record ToolConfigDiagramD2ElkOpts : Type 0 where
  pub algorithm : Bytes
  pub node_spacing : ℕ
  pub padding : Bytes
  pub edge_spacing : ℕ
  pub self_loop_spacing : ℕ

pub record ToolConfigDiagramD2DagreOpts : Type 0 where
  pub node_sep : ℕ
  pub edge_sep : ℕ

pub record ToolConfigDiagramD2Opts : Type 0 where
  pub engine : Bytes
  pub direction : Bytes
  pub theme_id : Option ℕ
  pub dark_theme_id : Option ℕ
  pub pad : Option ℕ
  pub sketch : Option Bool
  pub center : Option Bool
  pub scale : Option ℕ
  pub elk : ToolConfigDiagramD2ElkOpts
  pub dagre : ToolConfigDiagramD2DagreOpts

pub record ToolConfigDiagram : Type 0 where
  pub format : Bytes
  pub output_file : Bytes
  pub target_dir : Bytes
  pub multiple_files : Bool
  pub disable_formatting : Bool
  pub channels_centric : Bool
  pub servers_centric : Bool
  pub document_borders : Bool
  pub d2 : ToolConfigDiagramD2Opts

pub record ToolConfigUi : Type 0 where
  pub output_file : Bytes
  pub listen : Option Bool
  pub listen_address : Bytes
  pub listen_path : Bytes
  pub bundle : Option Bool
  pub bundle_dir : Bytes

pub record ToolConfig : Type 0 where
  pub config_version : ℕ
  pub project_module : Bytes
  pub runtime_module : Bytes
  pub templates_dir : Bytes
  pub locator : ToolConfigLocator
  pub code : ToolConfigCode
  pub client : ToolConfigClient
  pub infra : ToolConfigInfra
  pub diagram : ToolConfigDiagram
  pub ui : ToolConfigUi
