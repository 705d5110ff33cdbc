-- ===== src/Compilation.antt =====
-- runCompilation of cmd/go-asyncapi/code.go: the documents are compiled from a queue, each once, and
-- the documents that a document refers to are put into the queue. Loading and compiling one
-- document is the parameter `compile_document`, which returns the document's external references,
-- or nothing where it fails.
pub mod Closure
pub mod Progress
use go_asyncapi.Common.{
  ℕ, zero, suc, ◌≡◌, Bool, true, false, not, ◌&&◌, Option, none, some, List, [], ◌∷◌, ◌++◌, Bytes,
  if◌then◌else◌, ◌||◌, ◌>>=◌, bytes_eq,
}
use go_asyncapi.Common.GoMap.{has, insert}
use go_asyncapi.Jsonpointer.{Url, UrlPackage, JsonPointer, location}
use go_asyncapi.Locator.{resolve_url}
use go_asyncapi.Config.{ToolConfig}

-- internal/compiler/compile/context.go
pub record CompilationOpts : Type 0 where
  pub allow_remote_refs : Bool
  pub generate_publishers : Bool
  pub generate_subscribers : Bool

unfoldable pub get_compile_opts : ToolConfig → CompilationOpts
get_compile_opts cfg = record {
  allow_remote_refs = cfg.locator.allow_remote_references;
  generate_publishers = cfg.code.only_publish || not cfg.code.only_subscribe;
  generate_subscribers = cfg.code.only_subscribe || not cfg.code.only_publish;
}

-- What of internal/compiler/compiler.go's Document the queue needs.
pub record Document : Type 0 where
  pub url : JsonPointer
  pub external_refs : List JsonPointer

abbrev pub Documents : Type 0
Documents = List (Bytes × Document)

pub data Compilation : Type 0 where
  compiled : Documents → Compilation
  forbidden : JsonPointer → Compilation
  failed : JsonPointer → Compilation
  not_joined : JsonPointer → Compilation
  out_of_fuel : Compilation

abbrev pub is_remote : JsonPointer → Bool
is_remote u = elim u.uri [ none ↦ false | some _ ↦ true ]

-- The loop over ExternalURLs.
unfoldable pub join_all :
    UrlPackage
    → (Url → Url → Url)
    → Bytes
    → JsonPointer
    → List JsonPointer
    → Option (List JsonPointer)
join_all net resolve_reference root base [] = some []
join_all net resolve_reference root base (u ∷ us) = do
  joined ← resolve_url net resolve_reference root base u
  rest ← join_all net resolve_reference root base us
  some (joined ∷ rest)

module _ (net : UrlPackage) (resolve_reference : Url → Url → Url) (root : Bytes)
    (compile_document : JsonPointer → Option (List JsonPointer)) (opts : CompilationOpts) where
  unfoldable pub run_compilation : ℕ → List JsonPointer → Documents → Compilation
  run_compilation zero queue documents = out_of_fuel
  run_compilation (suc fuel) [] documents = compiled documents
  run_compilation (suc fuel) (u ∷ queue) documents = elim (has (location net u) documents) [
    | true ↦ run_compilation fuel queue documents
    | false ↦ elim (not opts.allow_remote_refs && is_remote u) [
      | true ↦ forbidden u
      | false ↦ elim (compile_document u) [
        | none ↦ failed u
        | some refs ↦ elim (join_all net resolve_reference root u refs) [
          | none ↦ not_joined u
          | some urls ↦
              run_compilation fuel (queue ++ urls)
                (insert (location net u) (record { url = u; external_refs = refs }) documents)
        ]
      ]
    ]
  ]
