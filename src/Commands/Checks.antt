-- ===== src/Commands/Checks.antt =====
-- The settings and the checks of the command diagram (cmd/go-asyncapi/diagram.go).
use mathlib.Core.Path.{subst}
use go_asyncapi.Common.{
  ℕ, ◌≡◌, ◌↔◌, ◌⊎◌, refl, ap, sym, Bool, true, false, not, ◌&&◌, Option, none, some, List, [], ◌∷◌,
  Bytes, codes, inl, inr, Bool-cases, ◌==◌, bytes_eq, ne_of_false, if◌then◌else◌,
}
use go_asyncapi.Config.{ToolConfig}
use go_asyncapi.Config.Merge.{string_zero, bool_zero}
use go_asyncapi.Config.Settings.{
  Setting, number, text, switch, number_pointer, switch_pointer, given, chosen, overridden,
  diagram_settings, locator_settings, number_chosen, text_chosen, switch_chosen,
  number_pointer_chosen, switch_pointer_chosen,
}
use go_asyncapi.Names.{contains_bytes}
use go_asyncapi.Commands.Diagram.{
  DiagramCmd, merged_diagram, cli_diagram_merge_config, formats, engines, directions,
  elk_algorithms, value_or,
}

-- A flag that is a pointer to a number, for a setting that is a number.
abbrev pub pointed : Option ℕ → Option Setting
pointed none = none
pointed (some n) = some (number n)

-- What the flags set, in the order of the settings of a diagram, and of the locator.
abbrev pub diagram_flags : DiagramCmd → List (Option Setting)
diagram_flags cmd =
    given (text cmd.format)
    ∷ given (text cmd.output_file)
    ∷ given (text cmd.target_dir)
    ∷ given (switch cmd.multiple_files)
    ∷ given (switch cmd.disable_formatting)
    ∷ given (switch cmd.channels_centric)
    ∷ given (switch cmd.servers_centric)
    ∷ given (switch cmd.document_borders)
    ∷ given (text cmd.d2.engine)
    ∷ given (text cmd.d2.direction)
    ∷ given (number_pointer cmd.d2.theme_id)
    ∷ given (number_pointer cmd.d2.dark_theme_id)
    ∷ given (number_pointer cmd.d2.pad)
    ∷ given (switch_pointer cmd.d2.sketch)
    ∷ given (switch_pointer cmd.d2.center)
    ∷ given (number_pointer cmd.d2.scale)
    ∷ given (text cmd.d2.elk.algorithm)
    ∷ pointed cmd.d2.elk.node_spacing
    ∷ given (text cmd.d2.elk.padding)
    ∷ pointed cmd.d2.elk.edge_spacing
    ∷ pointed cmd.d2.elk.self_loop_spacing
    ∷ pointed cmd.d2.dagre.node_sep
    ∷ pointed cmd.d2.dagre.edge_sep
    ∷ []

abbrev pub locator_cmd : DiagramCmd → List (Option Setting)
locator_cmd cmd =
    given (switch cmd.allow_remote_refs)
    ∷ given (text cmd.locator_root_dir)
    ∷ given (number cmd.locator_timeout)
    ∷ given (text cmd.locator_command)
    ∷ []

-- The settings that the flags and the configuration come to.
abbrev pub diagram_wanted : ToolConfig → DiagramCmd → List Setting
diagram_wanted conf cmd = overridden (diagram_flags cmd) (diagram_settings conf.diagram)

abbrev pub IsOneOf : Setting → List Bytes → Type 0
IsOneOf s [] = ⊥
IsOneOf s (x ∷ xs) = (s ≡ text x) ⊎ IsOneOf s xs

-- Settings of a diagram that the command accepts: a known format, not centred on channels and on
-- servers at once, and a known engine, direction and ELK algorithm.
abbrev pub IsAccepted : List Setting → Type 0
IsAccepted
      (format ∷ o ∷ t ∷ m ∷ f ∷ by_channel ∷ by_server ∷ b ∷ engine ∷ direction ∷ i ∷ j ∷ p ∷ s ∷ c
        ∷ k ∷ algorithm ∷ rest) =
    IsOneOf format (codes "d2" ∷ codes "svg" ∷ [])
    × (((by_channel ≡ switch true) × (by_server ≡ switch true)) → ⊥)
    × IsOneOf engine (codes "elk" ∷ codes "dagre" ∷ [])
    × IsOneOf direction (codes "up" ∷ codes "down" ∷ codes "left" ∷ codes "right" ∷ [])
    × IsOneOf algorithm (
        codes "layered"
        ∷ codes "force"
        ∷ codes "radial"
        ∷ codes "mrtree"
        ∷ codes "disco"
        ∷ codes "rectpacking"
        ∷ [])
IsAccepted ss = ⊥

text_of : Setting → Bytes
text_of (text s) = s
text_of s = []

switch_of : Setting → Bool
switch_of (switch b) = b
switch_of s = false

text_injective : (a b : Bytes) → text a ≡ text b → a ≡ b
unfolding text_of
text_injective a b e = ap text_of e

switch_injective : (a b : Bool) → switch a ≡ switch b → a ≡ b
unfolding switch_of
switch_injective a b e = ap switch_of e

contains-IsOneOf :
    (a : Bytes) (xs : List Bytes) → (contains_bytes a xs ≡ true) ↔ IsOneOf (text a) xs
contains-IsOneOf a [] = (λ h. cc, λ h. absurd h)
contains-IsOneOf a (x ∷ xs) =
    let ih = contains-IsOneOf a xs in
    elim (Bool-cases (x == a)) [
      | inl e ↦ (λ h. inl (ap text (sym ((bytes_eq.same_iff x a).0 e))), λ h. rw e refl)
      | inr e ↦ (
        λ h. inr (ih.0 (rw e at h)),
        λ h. rw e (
            ih.1 (elim h [
              | inl f ↦ absurd (ne_of_false x a e (sym (text_injective a x f)))
              | inr q ↦ q
            ])),
      )
    ]

not_both :
    (a b : Bool) → ((a && b) ≡ false) ↔ (((switch a ≡ switch true) × (switch b ≡ switch true)) → ⊥)
not_both true true = (λ h. cc, λ h. absurd (h (refl, refl)))
not_both true false = (λ h k. cc (switch_injective false true k.1), λ h. refl)
not_both false b = (λ h k. cc (switch_injective false true k.0), λ h. refl)

-- Checks that fail one after another, and what they decide.
five_checks :
    {A : Type 0} (a b c d e : Bool) (x : A) (P : Option A → Type 0)
    → ((((a ≡ true) × (b ≡ false) × (c ≡ true) × (d ≡ true) × (e ≡ true)) → ⊥) → P none)
    → (((a ≡ true) × (b ≡ false) × (c ≡ true) × (d ≡ true) × (e ≡ true)) → P (some x))
    → P (
        if not a
        then none
        else if b
        then none
        else if not c
        then none
        else if not d
        then none
        else if not e
        then none
        else some x)
five_checks false b c d e x P bad good = bad (λ h. cc (h.0))
five_checks true true c d e x P bad good = bad (λ h. cc (h.1))
five_checks true false false d e x P bad good = bad (λ h. cc (h.2))
five_checks true false true false e x P bad good = bad (λ h. cc (h.3))
five_checks true false true true false x P bad good = bad (λ h. cc (h.4))
five_checks true false true true true x P bad good = good (refl, refl, refl, refl, refl)

number_flag : (d : ℕ) (u : Option ℕ) → number (value_or u d) ≡ chosen (pointed u) (number d)
number_flag d none = refl
number_flag d (some n) = refl

diagram_merged :
    (conf : ToolConfig) (cmd : DiagramCmd)
    → diagram_settings (merged_diagram conf cmd).diagram ≡ diagram_wanted conf cmd
diagram_merged conf cmd = λ i.
    text_chosen conf.diagram.format cmd.format i
    ∷ text_chosen conf.diagram.output_file cmd.output_file i
    ∷ text_chosen conf.diagram.target_dir cmd.target_dir i
    ∷ switch_chosen conf.diagram.multiple_files cmd.multiple_files i
    ∷ switch_chosen conf.diagram.disable_formatting cmd.disable_formatting i
    ∷ switch_chosen conf.diagram.channels_centric cmd.channels_centric i
    ∷ switch_chosen conf.diagram.servers_centric cmd.servers_centric i
    ∷ switch_chosen conf.diagram.document_borders cmd.document_borders i
    ∷ text_chosen conf.diagram.d2.engine cmd.d2.engine i
    ∷ text_chosen conf.diagram.d2.direction cmd.d2.direction i
    ∷ number_pointer_chosen conf.diagram.d2.theme_id cmd.d2.theme_id i
    ∷ number_pointer_chosen conf.diagram.d2.dark_theme_id cmd.d2.dark_theme_id i
    ∷ number_pointer_chosen conf.diagram.d2.pad cmd.d2.pad i
    ∷ switch_pointer_chosen conf.diagram.d2.sketch cmd.d2.sketch i
    ∷ switch_pointer_chosen conf.diagram.d2.center cmd.d2.center i
    ∷ number_pointer_chosen conf.diagram.d2.scale cmd.d2.scale i
    ∷ text_chosen conf.diagram.d2.elk.algorithm cmd.d2.elk.algorithm i
    ∷ number_flag conf.diagram.d2.elk.node_spacing cmd.d2.elk.node_spacing i
    ∷ text_chosen conf.diagram.d2.elk.padding cmd.d2.elk.padding i
    ∷ number_flag conf.diagram.d2.elk.edge_spacing cmd.d2.elk.edge_spacing i
    ∷ number_flag conf.diagram.d2.elk.self_loop_spacing cmd.d2.elk.self_loop_spacing i
    ∷ number_flag conf.diagram.d2.dagre.node_sep cmd.d2.dagre.node_sep i
    ∷ number_flag conf.diagram.d2.dagre.edge_sep cmd.d2.dagre.edge_sep i
    ∷ []

locator_merged :
    (conf : ToolConfig) (cmd : DiagramCmd)
    → locator_settings (merged_diagram conf cmd).locator
      ≡ overridden (locator_cmd cmd) (locator_settings conf.locator)
locator_merged conf cmd = λ i.
    switch_chosen conf.locator.allow_remote_references cmd.allow_remote_refs i
    ∷ text_chosen conf.locator.root_directory cmd.locator_root_dir i
    ∷ number_chosen conf.locator.timeout cmd.locator_timeout i
    ∷ text_chosen conf.locator.command cmd.locator_command i
    ∷ []

-- What the command makes of a configuration and its flags; `none` is an error.
abbrev pub DiagramMerged : ToolConfig → DiagramCmd → Option ToolConfig → Type 0
DiagramMerged conf cmd none = IsAccepted (diagram_wanted conf cmd) → ⊥
DiagramMerged conf cmd (some r) =
    IsAccepted (diagram_wanted conf cmd)
    × (diagram_settings r.diagram ≡ diagram_wanted conf cmd)
    × (locator_settings r.locator ≡ overridden (locator_cmd cmd) (locator_settings conf.locator))
    × (text r.templates_dir ≡ chosen (given (text cmd.template_dir)) (text conf.templates_dir))
    × (r
        ≡ record conf { templates_dir = r.templates_dir; locator = r.locator; diagram = r.diagram })

-- The command diagram fails exactly if the settings that its flags and the configuration come to are
-- not accepted: the format is none of d2 and svg, the diagram is centred on channels and on servers,
-- or the engine, the direction or the ELK algorithm is none of the known ones. Otherwise each setting
-- of the diagram, of the locator and the directory of the templates is what the flag sets, a number
-- of ELK and dagre also to zero, and else what it was, and all other settings are left as they are.
pub cli_diagram_merge_config-DiagramMerged :
    (conf : ToolConfig) (cmd : DiagramCmd)
    → DiagramMerged conf cmd (cli_diagram_merge_config conf cmd)
unfolding cli_diagram_merge_config
cli_diagram_merge_config-DiagramMerged conf cmd =
    let d = (merged_diagram conf cmd).diagram in
    let one = contains-IsOneOf d.format formats in
    let two = not_both d.channels_centric d.servers_centric in
    let three = contains-IsOneOf d.d2.engine engines in
    let four = contains-IsOneOf d.d2.direction directions in
    let five = contains-IsOneOf d.d2.elk.algorithm elk_algorithms in
    five_checks (contains_bytes d.format formats) (d.channels_centric && d.servers_centric)
      (contains_bytes d.d2.engine engines) (contains_bytes d.d2.direction directions)
      (contains_bytes d.d2.elk.algorithm elk_algorithms) (merged_diagram conf cmd)
      (DiagramMerged conf cmd)
      (λ bad k.
        let (a, b, c, e, f) : IsAccepted (diagram_settings d) =
          subst IsAccepted (sym (diagram_merged conf cmd)) k in
        bad (one.1 a, two.1 b, three.1 c, four.1 e, five.1 f))
      (λ (a, b, c, e, f). (
        subst IsAccepted (diagram_merged conf cmd)
            (one.0 a, two.0 b, three.0 c, four.0 e, five.0 f),
        diagram_merged conf cmd,
        locator_merged conf cmd,
        text_chosen conf.templates_dir cmd.template_dir,
        refl,
      ))
