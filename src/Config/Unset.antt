-- ===== src/Config/Unset.antt =====
-- mergeConfig of cmd/go-asyncapi/config.go with a user's file that sets nothing.
use go_asyncapi.Common.{◌≡◌, refl, false, none, []}
use go_asyncapi.Config.{
  ToolConfigLocator, ToolConfigCodeUtil, ToolConfigCodeImplementation, ToolConfigCode,
  ToolConfigClient, ToolConfigInfra, ToolConfigDiagramD2ElkOpts, ToolConfigDiagramD2DagreOpts,
  ToolConfigDiagramD2Opts, ToolConfigDiagram, ToolConfigUi, ToolConfig,
}
use go_asyncapi.Config.Merge.{
  merge_locator, merge_util, merge_implementation, merge_code, merge_client, merge_infra, merge_elk,
  merge_dagre, merge_d2, merge_diagram, merge_ui, merge_config,
}

-- The configuration of a file that sets nothing.
abbrev pub zero_locator : ToolConfigLocator
zero_locator = record {
  allow_remote_references = false;
  root_directory = [];
  timeout = 0;
  command = [];
}

abbrev pub zero_util : ToolConfigCodeUtil
zero_util = record { directory = []; custom = [] }

abbrev pub zero_implementation : ToolConfigCodeImplementation
zero_implementation = record { directory = []; disable = false; custom = [] }

abbrev pub zero_code : ToolConfigCode
zero_code = record {
  only_publish = false;
  only_subscribe = false;
  disable_formatting = false;
  target_dir = [];
  layout = [];
  preamble_template = [];
  util = zero_util;
  implementation = zero_implementation;
}

abbrev pub zero_client : ToolConfigClient
zero_client = record {
  output_file = [];
  output_source_file = [];
  keep_source = false;
  go_mod_template = [];
  temp_dir = [];
}

abbrev pub zero_infra : ToolConfigInfra
zero_infra = record { server_opts = []; engine = []; output_file = [] }

abbrev pub zero_elk : ToolConfigDiagramD2ElkOpts
zero_elk = record {
  algorithm = [];
  node_spacing = 0;
  padding = [];
  edge_spacing = 0;
  self_loop_spacing = 0;
}

abbrev pub zero_dagre : ToolConfigDiagramD2DagreOpts
zero_dagre = record { node_sep = 0; edge_sep = 0 }

abbrev pub zero_d2 : ToolConfigDiagramD2Opts
zero_d2 = record {
  engine = [];
  direction = [];
  theme_id = none;
  dark_theme_id = none;
  pad = none;
  sketch = none;
  center = none;
  scale = none;
  elk = zero_elk;
  dagre = zero_dagre;
}

abbrev pub zero_diagram : ToolConfigDiagram
zero_diagram = record {
  format = [];
  output_file = [];
  target_dir = [];
  multiple_files = false;
  disable_formatting = false;
  channels_centric = false;
  servers_centric = false;
  document_borders = false;
  d2 = zero_d2;
}

abbrev pub zero_ui : ToolConfigUi
zero_ui = record {
  output_file = [];
  listen = none;
  listen_address = [];
  listen_path = [];
  bundle = none;
  bundle_dir = [];
}

abbrev pub zero_config : ToolConfig
zero_config = record {
  config_version = 0;
  project_module = [];
  runtime_module = [];
  templates_dir = [];
  locator = zero_locator;
  code = zero_code;
  client = zero_client;
  infra = zero_infra;
  diagram = zero_diagram;
  ui = zero_ui;
}

-- A user's file that sets nothing leaves the default configuration, less the directory for the
-- client's temporary files, which the merge drops.
pub merge_config_unset :
    (conf : ToolConfig)
    → merge_config conf zero_config ≡ record conf { client = record conf.client { temp_dir = [] } }
unfolding merge_locator merge_util merge_implementation merge_code merge_client merge_infra
    merge_elk merge_dagre merge_d2 merge_diagram merge_ui merge_config
merge_config_unset conf = refl
