-- ===== src/Commands.antt =====
-- The flags of the commands of cmd/go-asyncapi and how they are merged into the configuration:
-- code.go, client.go, infra.go and ui.go; Diagram has those of diagram.go. A flag that is not given
-- is the zero value.
pub mod Flags
pub mod Diagram
pub mod Checks
use go_asyncapi.Common.{ℕ, Bool, Option, none, some, Bytes, codes, if◌then◌else◌, ◌==◌, bytes_eq}
use go_asyncapi.Config.{
  ToolConfig, ToolConfigLocator, ToolConfigCode, ToolConfigCodeImplementation, ToolConfigClient,
  ToolConfigInfra, ToolConfigUi,
}
use go_asyncapi.Config.Merge.{coalesce, number_zero, string_zero, bool_zero, pointer_zero}

pub record CodeCmd : Type 0 where
  pub document : Bytes
  pub target_dir : Bytes
  pub only_pub : Bool
  pub only_sub : Bool
  pub project_module : Bytes
  pub runtime_module : Bytes
  pub template_dir : Bytes
  pub preamble_template : Bytes
  pub disable_formatting : Bool
  pub disable_implementations : Bool
  pub allow_remote_refs : Bool
  pub locator_root_dir : Bytes
  pub locator_timeout : ℕ
  pub locator_command : Bytes
  pub client_app : Bool
  pub go_mod_template : Bytes

pub record ClientCmd : Type 0 where
  pub document : Bytes
  pub config_file : Bytes
  pub output_exec_file : Bytes
  pub output_source_file : Bytes
  pub keep_source : Bool
  pub template_dir : Bytes
  pub temp_dir : Bytes
  pub preamble_template : Bytes
  pub go_mod_template : Bytes
  pub runtime_module : Bytes
  pub allow_remote_refs : Bool
  pub locator_root_dir : Bytes
  pub locator_timeout : ℕ
  pub locator_command : Bytes

pub record InfraCmd : Type 0 where
  pub document : Bytes
  pub engine : Bytes
  pub output_file : Bytes
  pub template_dir : Bytes
  pub allow_remote_refs : Bool
  pub locator_root_dir : Bytes
  pub locator_timeout : ℕ
  pub locator_command : Bytes

pub record UiCmd : Type 0 where
  pub document : Bytes
  pub output : Bytes
  pub listen : Option Bool
  pub listen_address : Bytes
  pub listen_path : Bytes
  pub bundle : Option Bool
  pub bundle_dir : Bytes
  pub templates_dir : Bytes

-- The four locator flags, which three of the commands share.
abbrev pub locator_flags : Bool → Bytes → ℕ → Bytes → ToolConfigLocator → ToolConfigLocator
locator_flags allow_remote_refs root_dir timeout command l = record {
  allow_remote_references = coalesce allow_remote_refs l.allow_remote_references;
  root_directory = coalesce root_dir l.root_directory;
  timeout = coalesce timeout l.timeout;
  command = coalesce command l.command;
}

unfoldable pub cli_code_merge_config : ToolConfig → CodeCmd → ToolConfig
cli_code_merge_config conf cmd = record conf {
  project_module = coalesce cmd.project_module conf.project_module;
  runtime_module = coalesce cmd.runtime_module conf.runtime_module;
  templates_dir = coalesce cmd.template_dir conf.templates_dir;
  locator =
      locator_flags cmd.allow_remote_refs cmd.locator_root_dir cmd.locator_timeout
        cmd.locator_command conf.locator;
  code = record conf.code {
    only_publish = coalesce cmd.only_pub conf.code.only_publish;
    only_subscribe = coalesce cmd.only_sub conf.code.only_subscribe;
    target_dir = coalesce cmd.target_dir conf.code.target_dir;
    preamble_template = coalesce cmd.preamble_template conf.code.preamble_template;
    disable_formatting = coalesce cmd.disable_formatting conf.code.disable_formatting;
    implementation = record conf.code.implementation {
      disable = coalesce cmd.disable_implementations conf.code.implementation.disable;
    };
  };
  client = record conf.client {
    go_mod_template = coalesce cmd.go_mod_template conf.client.go_mod_template;
  };
}

unfoldable pub cli_client_merge_config : ToolConfig → ClientCmd → ToolConfig
cli_client_merge_config conf cmd = record conf {
  templates_dir = coalesce cmd.template_dir conf.templates_dir;
  client = record {
    output_file = coalesce cmd.output_exec_file conf.client.output_file;
    output_source_file = coalesce cmd.output_source_file conf.client.output_source_file;
    keep_source = coalesce cmd.keep_source conf.client.keep_source;
    go_mod_template = coalesce cmd.go_mod_template conf.client.go_mod_template;
    temp_dir = coalesce cmd.temp_dir conf.client.temp_dir;
  };
  code = record conf.code {
    preamble_template = coalesce cmd.preamble_template conf.code.preamble_template;
  };
  runtime_module = coalesce cmd.runtime_module conf.runtime_module;
  locator =
      locator_flags cmd.allow_remote_refs cmd.locator_root_dir cmd.locator_timeout
        cmd.locator_command conf.locator;
}

-- `none` is the error of an unknown engine.
unfoldable pub cli_infra_merge_config : ToolConfig → InfraCmd → Option ToolConfig
cli_infra_merge_config conf cmd =
    let engine = coalesce cmd.engine conf.infra.engine in
    if engine == codes "docker"
    then some (record conf {
      templates_dir = coalesce cmd.template_dir conf.templates_dir;
      infra = record conf.infra {
        engine = engine;
        output_file = coalesce cmd.output_file (codes "./docker-compose.yaml");
      };
      locator =
          locator_flags cmd.allow_remote_refs cmd.locator_root_dir cmd.locator_timeout
            cmd.locator_command conf.locator;
    })
    else none

unfoldable pub cli_ui_merge_config : ToolConfig → UiCmd → ToolConfig
cli_ui_merge_config conf cmd = record conf {
  templates_dir = coalesce cmd.templates_dir conf.templates_dir;
  ui = record {
    output_file = coalesce cmd.output conf.ui.output_file;
    listen = coalesce cmd.listen conf.ui.listen;
    listen_address = coalesce cmd.listen_address conf.ui.listen_address;
    listen_path = coalesce cmd.listen_path conf.ui.listen_path;
    bundle = coalesce cmd.bundle conf.ui.bundle;
    bundle_dir = coalesce cmd.bundle_dir conf.ui.bundle_dir;
  };
}
