-- ===== src/Config/Settings.antt =====
-- The settings of the configuration of cmd/go-asyncapi/config.go as one list, in the order of the
-- struct fields, and what mergeConfig makes of each.
use go_asyncapi.Common.{
  ℕ, zero, suc, ◌≡◌, refl, ap, arith, Bool, true, false, Option, none, some, List, [], ◌∷◌, ◌++◌,
  Bytes,
}
use go_asyncapi.Config.{
  ToolConfigCodeLayout, ToolConfigCodeUtilProtocol, ToolConfigImplementationProtocol,
  ToolConfigInfraServerOpt, ToolConfigLocator, ToolConfigCode, ToolConfigClient, ToolConfigInfra,
  ToolConfigDiagram, ToolConfigUi, ToolConfig,
}
use go_asyncapi.Config.Merge.{
  merge_locator, merge_util, merge_implementation, merge_code, merge_client, merge_infra, merge_elk,
  merge_dagre, merge_d2, merge_diagram, merge_ui, merge_config, coalesce, replace, number_zero,
  string_zero, bool_zero, pointer_zero,
}

pub data Setting : Type 0 where
  number : ℕ → Setting
  text : Bytes → Setting
  switch : Bool → Setting
  number_pointer : Option ℕ → Setting
  switch_pointer : Option Bool → Setting
  layouts : List ToolConfigCodeLayout → Setting
  utils : List ToolConfigCodeUtilProtocol → Setting
  implementations : List ToolConfigImplementationProtocol → Setting
  servers : List ToolConfigInfraServerOpt → Setting

-- What a file or a flag sets: the zero value of a type stands for nothing.
abbrev pub given : Setting → Option Setting
given (number zero) = none
given (number (suc n)) = some (number (suc n))
given (text []) = none
given (text (c ∷ s)) = some (text (c ∷ s))
given (switch false) = none
given (switch true) = some (switch true)
given (number_pointer none) = none
given (number_pointer (some n)) = some (number_pointer (some n))
given (switch_pointer none) = none
given (switch_pointer (some b)) = some (switch_pointer (some b))
given (layouts []) = none
given (layouts (x ∷ xs)) = some (layouts (x ∷ xs))
given (utils []) = none
given (utils (x ∷ xs)) = some (utils (x ∷ xs))
given (implementations []) = none
given (implementations (x ∷ xs)) = some (implementations (x ∷ xs))
given (servers []) = none
given (servers (x ∷ xs)) = some (servers (x ∷ xs))

abbrev pub chosen : Option Setting → Setting → Setting
chosen none default_setting = default_setting
chosen (some s) default_setting = s

-- Each default setting, or what is given in its place.
abbrev pub overridden : List (Option Setting) → List Setting → List Setting
overridden [] ds = ds
overridden (s ∷ ss) [] = []
overridden (s ∷ ss) (d ∷ ds) = chosen s d ∷ overridden ss ds

abbrev pub all_given : List Setting → List (Option Setting)
all_given [] = []
all_given (s ∷ ss) = given s ∷ all_given ss

abbrev pub locator_settings : ToolConfigLocator → List Setting
locator_settings conf =
    switch conf.allow_remote_references
    ∷ text conf.root_directory
    ∷ number conf.timeout
    ∷ text conf.command
    ∷ []

abbrev pub code_settings : ToolConfigCode → List Setting
code_settings conf =
    switch conf.only_publish
    ∷ switch conf.only_subscribe
    ∷ switch conf.disable_formatting
    ∷ text conf.target_dir
    ∷ layouts conf.layout
    ∷ text conf.preamble_template
    ∷ text conf.util.directory
    ∷ utils conf.util.custom
    ∷ text conf.implementation.directory
    ∷ switch conf.implementation.disable
    ∷ implementations conf.implementation.custom
    ∷ []

abbrev pub client_settings : ToolConfigClient → List Setting
client_settings conf =
    text conf.output_file
    ∷ text conf.output_source_file
    ∷ switch conf.keep_source
    ∷ text conf.go_mod_template
    ∷ []

abbrev pub infra_settings : ToolConfigInfra → List Setting
infra_settings conf = servers conf.server_opts ∷ text conf.engine ∷ text conf.output_file ∷ []

abbrev pub diagram_settings : ToolConfigDiagram → List Setting
diagram_settings conf =
    text conf.format
    ∷ text conf.output_file
    ∷ text conf.target_dir
    ∷ switch conf.multiple_files
    ∷ switch conf.disable_formatting
    ∷ switch conf.channels_centric
    ∷ switch conf.servers_centric
    ∷ switch conf.document_borders
    ∷ text conf.d2.engine
    ∷ text conf.d2.direction
    ∷ number_pointer conf.d2.theme_id
    ∷ number_pointer conf.d2.dark_theme_id
    ∷ number_pointer conf.d2.pad
    ∷ switch_pointer conf.d2.sketch
    ∷ switch_pointer conf.d2.center
    ∷ number_pointer conf.d2.scale
    ∷ text conf.d2.elk.algorithm
    ∷ number conf.d2.elk.node_spacing
    ∷ text conf.d2.elk.padding
    ∷ number conf.d2.elk.edge_spacing
    ∷ number conf.d2.elk.self_loop_spacing
    ∷ number conf.d2.dagre.node_sep
    ∷ number conf.d2.dagre.edge_sep
    ∷ []

abbrev pub ui_settings : ToolConfigUi → List Setting
ui_settings conf =
    text conf.output_file
    ∷ switch_pointer conf.listen
    ∷ text conf.listen_address
    ∷ text conf.listen_path
    ∷ switch_pointer conf.bundle
    ∷ text conf.bundle_dir
    ∷ []

-- All settings but the directory for the client's temporary files.
abbrev pub settings : ToolConfig → List Setting
settings conf =
    number conf.config_version
    ∷ text conf.project_module
    ∷ text conf.runtime_module
    ∷ text conf.templates_dir
    ∷ (locator_settings conf.locator
        ++ (code_settings conf.code
            ++ (client_settings conf.client
                ++ (infra_settings conf.infra
                    ++ (diagram_settings conf.diagram ++ (ui_settings conf.ui))))))

nonzero : (d n : ℕ) → coalesce (suc n) d ≡ suc n
nonzero d n = ground arith

pub number_chosen : (d u : ℕ) → number (coalesce u d) ≡ chosen (given (number u)) (number d)
number_chosen d zero = refl
number_chosen d (suc n) = ap number (nonzero d n)

pub text_chosen : (d u : Bytes) → text (coalesce u d) ≡ chosen (given (text u)) (text d)
text_chosen d [] = refl
text_chosen d (c ∷ s) = refl

pub switch_chosen : (d u : Bool) → switch (coalesce u d) ≡ chosen (given (switch u)) (switch d)
switch_chosen d false = refl
switch_chosen d true = refl

pub number_pointer_chosen :
    (d u : Option ℕ)
    → number_pointer (coalesce u d) ≡ chosen (given (number_pointer u)) (number_pointer d)
number_pointer_chosen d none = refl
number_pointer_chosen d (some n) = refl

pub switch_pointer_chosen :
    (d u : Option Bool)
    → switch_pointer (coalesce u d) ≡ chosen (given (switch_pointer u)) (switch_pointer d)
switch_pointer_chosen d none = refl
switch_pointer_chosen d (some b) = refl

layouts_chosen :
    (d u : List ToolConfigCodeLayout)
    → layouts (replace d u) ≡ chosen (given (layouts u)) (layouts d)
layouts_chosen d [] = refl
layouts_chosen d (x ∷ xs) = refl

utils_chosen :
    (d u : List ToolConfigCodeUtilProtocol)
    → utils (replace d u) ≡ chosen (given (utils u)) (utils d)
utils_chosen d [] = refl
utils_chosen d (x ∷ xs) = refl

implementations_chosen :
    (d u : List ToolConfigImplementationProtocol)
    → implementations (replace d u) ≡ chosen (given (implementations u)) (implementations d)
implementations_chosen d [] = refl
implementations_chosen d (x ∷ xs) = refl

servers_chosen :
    (d u : List ToolConfigInfraServerOpt)
    → servers (replace d u) ≡ chosen (given (servers u)) (servers d)
servers_chosen d [] = refl
servers_chosen d (x ∷ xs) = refl

locator_merged :
    (d u : ToolConfigLocator)
    → locator_settings (merge_locator d u)
      ≡ overridden (all_given (locator_settings u)) (locator_settings d)
unfolding merge_locator
locator_merged d u = λ i.
    switch_chosen d.allow_remote_references u.allow_remote_references i
    ∷ text_chosen d.root_directory u.root_directory i
    ∷ number_chosen d.timeout u.timeout i
    ∷ text_chosen d.command u.command i
    ∷ []

code_merged :
    (d u : ToolConfigCode)
    → code_settings (merge_code d u) ≡ overridden (all_given (code_settings u)) (code_settings d)
unfolding merge_code merge_util merge_implementation
code_merged d u = λ i.
    switch_chosen d.only_publish u.only_publish i
    ∷ switch_chosen d.only_subscribe u.only_subscribe i
    ∷ switch_chosen d.disable_formatting u.disable_formatting i
    ∷ text_chosen d.target_dir u.target_dir i
    ∷ layouts_chosen d.layout u.layout i
    ∷ text_chosen d.preamble_template u.preamble_template i
    ∷ text_chosen d.util.directory u.util.directory i
    ∷ utils_chosen d.util.custom u.util.custom i
    ∷ text_chosen d.implementation.directory u.implementation.directory i
    ∷ switch_chosen d.implementation.disable u.implementation.disable i
    ∷ implementations_chosen d.implementation.custom u.implementation.custom i
    ∷ []

client_merged :
    (d u : ToolConfigClient)
    → client_settings (merge_client d u)
      ≡ overridden (all_given (client_settings u)) (client_settings d)
unfolding merge_client
client_merged d u = λ i.
    text_chosen d.output_file u.output_file i
    ∷ text_chosen d.output_source_file u.output_source_file i
    ∷ switch_chosen d.keep_source u.keep_source i
    ∷ text_chosen d.go_mod_template u.go_mod_template i
    ∷ []

infra_merged :
    (d u : ToolConfigInfra)
    → infra_settings (merge_infra d u)
      ≡ overridden (all_given (infra_settings u)) (infra_settings d)
unfolding merge_infra
infra_merged d u = λ i.
    servers_chosen d.server_opts u.server_opts i
    ∷ text_chosen d.engine u.engine i
    ∷ text_chosen d.output_file u.output_file i
    ∷ []

diagram_merged :
    (d u : ToolConfigDiagram)
    → diagram_settings (merge_diagram d u)
      ≡ overridden (all_given (diagram_settings u)) (diagram_settings d)
unfolding merge_diagram merge_d2 merge_elk merge_dagre
diagram_merged d u = λ i.
    text_chosen d.format u.format i
    ∷ text_chosen d.output_file u.output_file i
    ∷ text_chosen d.target_dir u.target_dir i
    ∷ switch_chosen d.multiple_files u.multiple_files i
    ∷ switch_chosen d.disable_formatting u.disable_formatting i
    ∷ switch_chosen d.channels_centric u.channels_centric i
    ∷ switch_chosen d.servers_centric u.servers_centric i
    ∷ switch_chosen d.document_borders u.document_borders i
    ∷ text_chosen d.d2.engine u.d2.engine i
    ∷ text_chosen d.d2.direction u.d2.direction i
    ∷ number_pointer_chosen d.d2.theme_id u.d2.theme_id i
    ∷ number_pointer_chosen d.d2.dark_theme_id u.d2.dark_theme_id i
    ∷ number_pointer_chosen d.d2.pad u.d2.pad i
    ∷ switch_pointer_chosen d.d2.sketch u.d2.sketch i
    ∷ switch_pointer_chosen d.d2.center u.d2.center i
    ∷ number_pointer_chosen d.d2.scale u.d2.scale i
    ∷ text_chosen d.d2.elk.algorithm u.d2.elk.algorithm i
    ∷ number_chosen d.d2.elk.node_spacing u.d2.elk.node_spacing i
    ∷ text_chosen d.d2.elk.padding u.d2.elk.padding i
    ∷ number_chosen d.d2.elk.edge_spacing u.d2.elk.edge_spacing i
    ∷ number_chosen d.d2.elk.self_loop_spacing u.d2.elk.self_loop_spacing i
    ∷ number_chosen d.d2.dagre.node_sep u.d2.dagre.node_sep i
    ∷ number_chosen d.d2.dagre.edge_sep u.d2.dagre.edge_sep i
    ∷ []

ui_merged :
    (d u : ToolConfigUi)
    → ui_settings (merge_ui d u) ≡ overridden (all_given (ui_settings u)) (ui_settings d)
unfolding merge_ui
ui_merged d u = λ i.
    text_chosen d.output_file u.output_file i
    ∷ switch_pointer_chosen d.listen u.listen i
    ∷ text_chosen d.listen_address u.listen_address i
    ∷ text_chosen d.listen_path u.listen_path i
    ∷ switch_pointer_chosen d.bundle u.bundle i
    ∷ text_chosen d.bundle_dir u.bundle_dir i
    ∷ []

-- Each setting of the merged configuration is the user's where the user's file sets it, to a value that
-- is not the zero of its type, and the default one elsewhere; lists are taken whole. Only the
-- directory for the client's temporary files is never set.
pub merge_config-settings :
    (default_conf user_conf : ToolConfig)
    → (settings (merge_config default_conf user_conf)
        ≡ overridden (all_given (settings user_conf)) (settings default_conf))
      × ((merge_config default_conf user_conf).client.temp_dir ≡ [])
unfolding merge_config merge_locator merge_code merge_util merge_implementation merge_client
    merge_infra merge_diagram merge_d2 merge_elk merge_dagre merge_ui
merge_config-settings d u = (
  λ i.
      number_chosen d.config_version u.config_version i
      ∷ text_chosen d.project_module u.project_module i
      ∷ text_chosen d.runtime_module u.runtime_module i
      ∷ text_chosen d.templates_dir u.templates_dir i
      ∷ (locator_merged d.locator u.locator i
          ++ (code_merged d.code u.code i
              ++ (client_merged d.client u.client i
                  ++ (infra_merged d.infra u.infra i
                      ++ (diagram_merged d.diagram u.diagram i ++ (ui_merged d.ui u.ui i)))))),
  refl,
)
