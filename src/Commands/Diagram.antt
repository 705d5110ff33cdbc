-- ===== src/Commands/Diagram.antt =====
-- The flags of the command diagram, their merge into the configuration and its checks, and the
-- options that follow from it (cmd/go-asyncapi/diagram.go).
use go_asyncapi.Common.{
  ℕ, Bool, not, ◌&&◌, Option, none, some, List, [], ◌∷◌, Bytes, codes, map, if◌then◌else◌,
}
use go_asyncapi.Config.{
  ToolConfig, ToolConfigDiagram, ToolConfigDiagramD2Opts, ToolConfigDiagramD2ElkOpts,
  ToolConfigDiagramD2DagreOpts,
}
use go_asyncapi.Config.Merge.{coalesce, number_zero, string_zero, bool_zero, pointer_zero}
use go_asyncapi.Names.{contains_bytes}
use go_asyncapi.Commands.{locator_flags}

pub record DiagramCmdD2ElkOptions : Type 0 where
  pub algorithm : Bytes
  pub node_spacing : Option ℕ
  pub padding : Bytes
  pub edge_spacing : Option ℕ
  pub self_loop_spacing : Option ℕ

pub record DiagramCmdD2DagreOptions : Type 0 where
  pub node_sep : Option ℕ
  pub edge_sep : Option ℕ

pub record DiagramCmdD2Options : Type 0 where
  pub engine : Bytes
  pub direction : Bytes
  pub theme_id : Option ℕ
  pub dark_theme_id : Option ℕ
  pub pad : Option ℕ
  pub sketch : Option Bool
  pub center : Option Bool
  pub scale : Option ℕ
  pub elk : DiagramCmdD2ElkOptions
  pub dagre : DiagramCmdD2DagreOptions

pub record DiagramCmd : Type 0 where
  pub document : Bytes
  pub format : Bytes
  pub target_dir : Bytes
  pub output_file : Bytes
  pub multiple_files : Bool
  pub disable_formatting : Bool
  pub channels_centric : Bool
  pub servers_centric : Bool
  pub document_borders : Bool
  pub d2 : DiagramCmdD2Options
  pub template_dir : Bytes
  pub allow_remote_refs : Bool
  pub locator_root_dir : Bytes
  pub locator_timeout : ℕ
  pub locator_command : Bytes

-- *coalesce(p, &v)
abbrev pub value_or : Option ℕ → ℕ → ℕ
value_or none v = v
value_or (some n) v = n

abbrev pub formats : List Bytes
formats = map codes ("d2" ∷ "svg" ∷ [])

abbrev pub engines : List Bytes
engines = map codes ("elk" ∷ "dagre" ∷ [])

abbrev pub directions : List Bytes
directions = map codes ("up" ∷ "down" ∷ "left" ∷ "right" ∷ [])

abbrev pub elk_algorithms : List Bytes
elk_algorithms =
    map codes ("layered" ∷ "force" ∷ "radial" ∷ "mrtree" ∷ "disco" ∷ "rectpacking" ∷ [])

abbrev pub merged_elk :
    ToolConfigDiagramD2ElkOpts → DiagramCmdD2ElkOptions → ToolConfigDiagramD2ElkOpts
merged_elk conf cmd = record {
  algorithm = coalesce cmd.algorithm conf.algorithm;
  node_spacing = value_or cmd.node_spacing conf.node_spacing;
  padding = coalesce cmd.padding conf.padding;
  edge_spacing = value_or cmd.edge_spacing conf.edge_spacing;
  self_loop_spacing = value_or cmd.self_loop_spacing conf.self_loop_spacing;
}

abbrev pub merged_dagre :
    ToolConfigDiagramD2DagreOpts → DiagramCmdD2DagreOptions → ToolConfigDiagramD2DagreOpts
merged_dagre conf cmd = record {
  node_sep = value_or cmd.node_sep conf.node_sep;
  edge_sep = value_or cmd.edge_sep conf.edge_sep;
}

abbrev pub merged_d2 : ToolConfigDiagramD2Opts → DiagramCmdD2Options → ToolConfigDiagramD2Opts
merged_d2 conf cmd = record {
  engine = coalesce cmd.engine conf.engine;
  direction = coalesce cmd.direction conf.direction;
  theme_id = coalesce cmd.theme_id conf.theme_id;
  dark_theme_id = coalesce cmd.dark_theme_id conf.dark_theme_id;
  pad = coalesce cmd.pad conf.pad;
  sketch = coalesce cmd.sketch conf.sketch;
  center = coalesce cmd.center conf.center;
  scale = coalesce cmd.scale conf.scale;
  elk = merged_elk conf.elk cmd.elk;
  dagre = merged_dagre conf.dagre cmd.dagre;
}

-- All assignments of cliDiagramMergeConfig.
abbrev pub merged_diagram : ToolConfig → DiagramCmd → ToolConfig
merged_diagram conf cmd = record conf {
  templates_dir = coalesce cmd.template_dir conf.templates_dir;
  locator =
      locator_flags cmd.allow_remote_refs cmd.locator_root_dir cmd.locator_timeout
        cmd.locator_command conf.locator;
  diagram = record {
    format = coalesce cmd.format conf.diagram.format;
    output_file = coalesce cmd.output_file conf.diagram.output_file;
    target_dir = coalesce cmd.target_dir conf.diagram.target_dir;
    multiple_files = coalesce cmd.multiple_files conf.diagram.multiple_files;
    disable_formatting = coalesce cmd.disable_formatting conf.diagram.disable_formatting;
    channels_centric = coalesce cmd.channels_centric conf.diagram.channels_centric;
    servers_centric = coalesce cmd.servers_centric conf.diagram.servers_centric;
    document_borders = coalesce cmd.document_borders conf.diagram.document_borders;
    d2 = merged_d2 conf.diagram.d2 cmd.d2;
  };
}

-- `none` is an error; the checks stand in the order of the source.
unfoldable pub cli_diagram_merge_config : ToolConfig → DiagramCmd → Option ToolConfig
cli_diagram_merge_config conf cmd =
    let d = conf.diagram in
    if not (contains_bytes (coalesce cmd.format d.format) formats)
    then none
    else if coalesce cmd.channels_centric d.channels_centric
        && coalesce cmd.servers_centric d.servers_centric
    then none
    else if not (contains_bytes (coalesce cmd.d2.engine d.d2.engine) engines)
    then none
    else if not (contains_bytes (coalesce cmd.d2.direction d.d2.direction) directions)
    then none
    else if not (contains_bytes (coalesce cmd.d2.elk.algorithm d.d2.elk.algorithm) elk_algorithms)
    then none
    else some (merged_diagram conf cmd)

pub record DiagramRenderOpts : Type 0 where
  pub show_channels : Bool
  pub show_servers : Bool
  pub show_document_borders : Bool
  pub d2_diagram_direction : Bytes

unfoldable pub get_diagram_config : ToolConfigDiagram → DiagramRenderOpts
get_diagram_config conf = record {
  show_channels = not conf.servers_centric;
  show_servers = not conf.channels_centric;
  show_document_borders = conf.document_borders;
  d2_diagram_direction = conf.d2.direction;
}
