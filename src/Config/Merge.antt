-- ===== src/Config/Merge.antt =====
-- mergeConfig of cmd/go-asyncapi/config.go: the user's configuration is merged into the default one,
-- a part of it at a time.
use go_asyncapi.Common.{
  ℕ, Bool, true, false, not, Option, none, some, List, [], ◌∷◌, if◌then◌else◌, eqb,
}
use go_asyncapi.Config.{
  ToolConfigLocator, ToolConfigCodeUtil, ToolConfigCodeImplementation, ToolConfigCode,
  ToolConfigClient, ToolConfigInfra, ToolConfigDiagramD2ElkOpts, ToolConfigDiagramD2DagreOpts,
  ToolConfigDiagramD2Opts, ToolConfigDiagram, ToolConfigUi, ToolConfig,
}

-- A type with Go's test for its zero value.
pub record Zero {ℓ} (A : Type ℓ) : Type ℓ where
  pub is_zero : A → Bool

instance abbrev pub number_zero : Zero ℕ
number_zero = record { is_zero = λ n. eqb n 0 }

abbrev pub empty_list {ℓ} : {A : Type ℓ} → List A → Bool
empty_list [] = true
empty_list (x ∷ xs) = false

instance abbrev pub string_zero : Zero (List ℕ)
string_zero = record { is_zero = empty_list }

instance abbrev pub bool_zero : Zero Bool
bool_zero = record { is_zero = not }

abbrev pub is_nil {ℓ} : {A : Type ℓ} → Option A → Bool
is_nil none = true
is_nil (some a) = false

instance abbrev pub pointer_zero {ℓ} : {A : Type ℓ} → Zero (Option A)
pointer_zero = record { is_zero = is_nil }

-- coalesce of code.go with two arguments: the first one unless it is zero
abbrev pub coalesce {ℓ} : {A : Type ℓ} ⦃z : Zero A⦄ → A → A → A
coalesce ⦃z⦄ a b = if z.is_zero a then b else a

-- *Replace* the whole list
abbrev pub replace {ℓ} : {A : Type ℓ} → List A → List A → List A
replace default_list [] = default_list
replace default_list (x ∷ xs) = x ∷ xs

unfoldable pub merge_locator : ToolConfigLocator → ToolConfigLocator → ToolConfigLocator
merge_locator default_conf user_conf = record {
  allow_remote_references =
      coalesce user_conf.allow_remote_references default_conf.allow_remote_references;
  root_directory = coalesce user_conf.root_directory default_conf.root_directory;
  timeout = coalesce user_conf.timeout default_conf.timeout;
  command = coalesce user_conf.command default_conf.command;
}

unfoldable pub merge_util : ToolConfigCodeUtil → ToolConfigCodeUtil → ToolConfigCodeUtil
merge_util default_conf user_conf = record {
  directory = coalesce user_conf.directory default_conf.directory;
  custom = replace default_conf.custom user_conf.custom;
}

unfoldable pub merge_implementation :
    ToolConfigCodeImplementation → ToolConfigCodeImplementation → ToolConfigCodeImplementation
merge_implementation default_conf user_conf = record {
  directory = coalesce user_conf.directory default_conf.directory;
  disable = coalesce user_conf.disable default_conf.disable;
  custom = replace default_conf.custom user_conf.custom;
}

unfoldable pub merge_code : ToolConfigCode → ToolConfigCode → ToolConfigCode
merge_code default_conf user_conf = record {
  only_publish = coalesce user_conf.only_publish default_conf.only_publish;
  only_subscribe = coalesce user_conf.only_subscribe default_conf.only_subscribe;
  disable_formatting = coalesce user_conf.disable_formatting default_conf.disable_formatting;
  target_dir = coalesce user_conf.target_dir default_conf.target_dir;
  layout = replace default_conf.layout user_conf.layout;
  preamble_template = coalesce user_conf.preamble_template default_conf.preamble_template;
  util = merge_util default_conf.util user_conf.util;
  implementation = merge_implementation default_conf.implementation user_conf.implementation;
}

unfoldable pub merge_client : ToolConfigClient → ToolConfigClient → ToolConfigClient
merge_client default_conf user_conf = record {
  output_file = coalesce user_conf.output_file default_conf.output_file;
  output_source_file = coalesce user_conf.output_source_file default_conf.output_source_file;
  keep_source = coalesce user_conf.keep_source default_conf.keep_source;
  go_mod_template = coalesce user_conf.go_mod_template default_conf.go_mod_template;
  temp_dir = [];
}

unfoldable pub merge_infra : ToolConfigInfra → ToolConfigInfra → ToolConfigInfra
merge_infra default_conf user_conf = record {
  server_opts = replace default_conf.server_opts user_conf.server_opts;
  engine = coalesce user_conf.engine default_conf.engine;
  output_file = coalesce user_conf.output_file default_conf.output_file;
}

unfoldable pub merge_elk :
    ToolConfigDiagramD2ElkOpts → ToolConfigDiagramD2ElkOpts → ToolConfigDiagramD2ElkOpts
merge_elk default_conf user_conf = record {
  algorithm = coalesce user_conf.algorithm default_conf.algorithm;
  node_spacing = coalesce user_conf.node_spacing default_conf.node_spacing;
  padding = coalesce user_conf.padding default_conf.padding;
  edge_spacing = coalesce user_conf.edge_spacing default_conf.edge_spacing;
  self_loop_spacing = coalesce user_conf.self_loop_spacing default_conf.self_loop_spacing;
}

unfoldable pub merge_dagre :
    ToolConfigDiagramD2DagreOpts → ToolConfigDiagramD2DagreOpts → ToolConfigDiagramD2DagreOpts
merge_dagre default_conf user_conf = record {
  node_sep = coalesce user_conf.node_sep default_conf.node_sep;
  edge_sep = coalesce user_conf.edge_sep default_conf.edge_sep;
}

unfoldable pub merge_d2 :
    ToolConfigDiagramD2Opts → ToolConfigDiagramD2Opts → ToolConfigDiagramD2Opts
merge_d2 default_conf user_conf = record {
  engine = coalesce user_conf.engine default_conf.engine;
  direction = coalesce user_conf.direction default_conf.direction;
  theme_id = coalesce user_conf.theme_id default_conf.theme_id;
  dark_theme_id = coalesce user_conf.dark_theme_id default_conf.dark_theme_id;
  pad = coalesce user_conf.pad default_conf.pad;
  sketch = coalesce user_conf.sketch default_conf.sketch;
  center = coalesce user_conf.center default_conf.center;
  scale = coalesce user_conf.scale default_conf.scale;
  elk = merge_elk default_conf.elk user_conf.elk;
  dagre = merge_dagre default_conf.dagre user_conf.dagre;
}

unfoldable pub merge_diagram : ToolConfigDiagram → ToolConfigDiagram → ToolConfigDiagram
merge_diagram default_conf user_conf = record {
  format = coalesce user_conf.format default_conf.format;
  output_file = coalesce user_conf.output_file default_conf.output_file;
  target_dir = coalesce user_conf.target_dir default_conf.target_dir;
  multiple_files = coalesce user_conf.multiple_files default_conf.multiple_files;
  disable_formatting = coalesce user_conf.disable_formatting default_conf.disable_formatting;
  channels_centric = coalesce user_conf.channels_centric default_conf.channels_centric;
  servers_centric = coalesce user_conf.servers_centric default_conf.servers_centric;
  document_borders = coalesce user_conf.document_borders default_conf.document_borders;
  d2 = merge_d2 default_conf.d2 user_conf.d2;
}

unfoldable pub merge_ui : ToolConfigUi → ToolConfigUi → ToolConfigUi
merge_ui default_conf user_conf = record {
  output_file = coalesce user_conf.output_file default_conf.output_file;
  listen = coalesce user_conf.listen default_conf.listen;
  listen_address = coalesce user_conf.listen_address default_conf.listen_address;
  listen_path = coalesce user_conf.listen_path default_conf.listen_path;
  bundle = coalesce user_conf.bundle default_conf.bundle;
  bundle_dir = coalesce user_conf.bundle_dir default_conf.bundle_dir;
}

unfoldable pub merge_config : ToolConfig → ToolConfig → ToolConfig
merge_config default_conf user_conf = record {
  config_version = coalesce user_conf.config_version default_conf.config_version;
  project_module = coalesce user_conf.project_module default_conf.project_module;
  runtime_module = coalesce user_conf.runtime_module default_conf.runtime_module;
  templates_dir = coalesce user_conf.templates_dir default_conf.templates_dir;
  locator = merge_locator default_conf.locator user_conf.locator;
  code = merge_code default_conf.code user_conf.code;
  client = merge_client default_conf.client user_conf.client;
  infra = merge_infra default_conf.infra user_conf.infra;
  diagram = merge_diagram default_conf.diagram user_conf.diagram;
  ui = merge_ui default_conf.ui user_conf.ui;
}
