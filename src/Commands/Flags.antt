-- ===== src/Commands/Flags.antt =====
-- The merge of the flags of cmd/go-asyncapi: flags that are not given, and the infra output file.
use go_asyncapi.Common.{
  ◌≡◌, refl, false, none, some, [], Bytes, codes, ◌==◌, bytes_eq, if◌then◌else◌,
}
use go_asyncapi.Config.{ToolConfig}
use go_asyncapi.Commands.{
  CodeCmd, ClientCmd, InfraCmd, UiCmd, cli_code_merge_config, cli_client_merge_config,
  cli_infra_merge_config, cli_ui_merge_config,
}

-- Only the document is given.
abbrev pub code_cmd : Bytes → CodeCmd
code_cmd d = record {
  document = d;
  target_dir = [];
  only_pub = false;
  only_sub = false;
  project_module = [];
  runtime_module = [];
  template_dir = [];
  preamble_template = [];
  disable_formatting = false;
  disable_implementations = false;
  allow_remote_refs = false;
  locator_root_dir = [];
  locator_timeout = 0;
  locator_command = [];
  client_app = false;
  go_mod_template = [];
}

abbrev pub client_cmd : Bytes → ClientCmd
client_cmd d = record {
  document = d;
  config_file = [];
  output_exec_file = [];
  output_source_file = [];
  keep_source = false;
  template_dir = [];
  temp_dir = [];
  preamble_template = [];
  go_mod_template = [];
  runtime_module = [];
  allow_remote_refs = false;
  locator_root_dir = [];
  locator_timeout = 0;
  locator_command = [];
}

abbrev pub infra_cmd : Bytes → InfraCmd
infra_cmd d = record {
  document = d;
  engine = [];
  output_file = [];
  template_dir = [];
  allow_remote_refs = false;
  locator_root_dir = [];
  locator_timeout = 0;
  locator_command = [];
}

abbrev pub ui_cmd : Bytes → UiCmd
ui_cmd d = record {
  document = d;
  output = [];
  listen = none;
  listen_address = [];
  listen_path = [];
  bundle = none;
  bundle_dir = [];
  templates_dir = [];
}

-- The commands code, client and ui take the configuration as it is where no flag is given. The
-- command infra does so but for the output file: with the engine docker it is
-- ./docker-compose.yaml, whatever the configuration says, and with another engine it fails.
pub merge_commands_unset :
    (conf : ToolConfig) (d : Bytes)
    → (cli_code_merge_config conf (code_cmd d) ≡ conf)
      × (cli_client_merge_config conf (client_cmd d) ≡ conf)
      × (cli_ui_merge_config conf (ui_cmd d) ≡ conf)
      × (cli_infra_merge_config conf (infra_cmd d) ≡ (
          if conf.infra.engine == codes "docker"
          then some (record conf {
            infra = record conf.infra { output_file = codes "./docker-compose.yaml" };
          })
          else none))
unfolding cli_code_merge_config cli_client_merge_config cli_ui_merge_config cli_infra_merge_config
merge_commands_unset conf d = (refl, refl, refl, refl)
