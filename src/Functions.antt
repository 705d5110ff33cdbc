-- ===== src/Functions.antt =====
-- Functions that the templates call, internal/tmpl/functions.go: texts, names and imports.
pub mod Text
pub mod Importing
pub mod Pinned
pub mod Expressions
pub mod Extraction
pub mod Steps
pub mod Ending
use go_asyncapi.Common.{
  ℕ, zero, suc, ◌+◌, ◌-◌, Bool, true, false, not, ◌&&◌, ◌||◌, Option, none, some, List, [], ◌∷◌,
  ◌++◌, Bytes, codes, ◌==◌, bytes_eq, if◌then◌else◌, length, leb, eqb, EqType, ◌>>=◌,
}
use go_asyncapi.Common.Strings.{split, has_prefix}
use go_asyncapi.Names.{CasePackage, to_golang_name, drop, is_upper}
use go_asyncapi.Locator.Path.{path_join, path_dir, slash}
use go_asyncapi.Imports.{add_import, last_part}
use go_asyncapi.Namespace.{
  NamespaceArtifactItem, NamespaceManager, find_artifact, contains_object, add_object,
}
use go_asyncapi.RenderManager.{FileRenderState, RenderManager, Imports}

abbrev pub repeat : ℕ → Bytes
repeat zero = []
repeat (suc n) = 46 ∷ repeat n

-- Go's int.
pub data ℤ : Type 0 where
  pos : ℕ → ℤ
  negsuc : ℕ → ℤ

-- `none` is the panic of strings.Repeat on a negative count; no text fits a negative length.
unfoldable pub ellipsis_start : ℤ → Bytes → Option Bytes
ellipsis_start (negsuc n) s = none
ellipsis_start (pos maxlen) s =
    if leb (length s) maxlen
    then some s
    else if leb maxlen 3
    then some (repeat maxlen)
    else some (codes "..." ++ drop (length s - (maxlen - 3)) s)

-- The loop over the pairs; `none` is the panic on an odd number, the inner one the nil value.
unfoldable pub mapping : {V : Type 0} ⦃e : EqType V⦄ → V → List V → Option (Option V)
mapping v [] = some none
mapping v (a ∷ []) = none
mapping v (a ∷ b ∷ rest) =
    let found = mapping v rest in
    elim found [ none ↦ none | some r ↦ if a == v then some (some b) else some r ]

abbrev pub newline : ℕ
newline = 10

abbrev pub contains_byte : ℕ → Bytes → Bool
contains_byte b [] = false
contains_byte b (c ∷ s) = eqb c b || contains_byte b s

abbrev pub ends_with : ℕ → Bytes → Bool
ends_with b [] = false
ends_with b (c ∷ []) = eqb c b
ends_with b (c ∷ d ∷ s) = ends_with b (d ∷ s)

-- The text with a newline at its end.
abbrev pub ended : Bytes → Bytes
ended text = if ends_with newline text then text else text ++ newline ∷ []

unfoldable pub template_go_comment : Bytes → Bytes
template_go_comment text =
    if has_prefix text (codes "//") || has_prefix text (codes "/*")
    then text
    else if contains_byte newline text
    then codes "/*" ++ newline ∷ (ended text ++ codes "*/")
    else codes "// " ++ text

-- token.IsExported, on ASCII
abbrev pub is_exported : Bytes → Bool
is_exported [] = false
is_exported (c ∷ s) = is_upper c
