-- ===== src/Examples/Configuring.antt =====
-- The merge of configurations of cmd/go-asyncapi/config.go at concrete values.
use go_asyncapi.Common.{◌≡◌, codes, [], true, false, some, none, bytes_eq}
use go_asyncapi.Config.{ToolConfig}
use go_asyncapi.Commands.Diagram.{DiagramCmd, cli_diagram_merge_config}
use go_asyncapi.Commands.Checks.{DiagramMerged, cli_diagram_merge_config-DiagramMerged}
use go_asyncapi.Config.Merge.{merge_config}
use go_asyncapi.Config.Unset.{zero_config}
use go_asyncapi.Config.Settings.{settings, overridden, all_given, merge_config-settings}

abbrev some_config : ToolConfig
some_config = record zero_config {
  config_version = 1;
  client = record zero_config.client { temp_dir = codes "/tmp" };
}

abbrev other_config : ToolConfig
other_config = record zero_config {
  config_version = 2;
  locator = record zero_config.locator { allow_remote_references = true };
}

merge_config-settings_example :
    (settings (merge_config some_config other_config)
      ≡ overridden (all_given (settings other_config)) (settings some_config))
    × ((merge_config some_config other_config).client.temp_dir ≡ [])
merge_config-settings_example = merge_config-settings some_config other_config

abbrev d2_config : ToolConfig
d2_config = record zero_config {
  diagram = record zero_config.diagram {
    format = codes "svg";
    d2 = record zero_config.diagram.d2 {
      engine = codes "elk";
      direction = codes "up";
      elk = record zero_config.diagram.d2.elk { algorithm = codes "layered" };
    };
  };
}

abbrev sideways : DiagramCmd
sideways = record {
  document = codes "d";
  format = [];
  target_dir = [];
  output_file = [];
  multiple_files = false;
  disable_formatting = false;
  channels_centric = true;
  servers_centric = false;
  document_borders = false;
  d2 = record {
    engine = [];
    direction = codes "right";
    theme_id = none;
    dark_theme_id = none;
    pad = some 10;
    sketch = none;
    center = none;
    scale = none;
    elk = record {
      algorithm = [];
      node_spacing = some 7;
      padding = [];
      edge_spacing = none;
      self_loop_spacing = none;
    };
    dagre = record { node_sep = none; edge_sep = none };
  };
  template_dir = [];
  allow_remote_refs = false;
  locator_root_dir = [];
  locator_timeout = 0;
  locator_command = [];
}

cli_diagram_merge_config-DiagramMerged_example :
    DiagramMerged d2_config sideways (cli_diagram_merge_config d2_config sideways)
cli_diagram_merge_config-DiagramMerged_example =
    cli_diagram_merge_config-DiagramMerged d2_config sideways
