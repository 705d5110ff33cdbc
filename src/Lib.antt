-- ===== src/Lib.antt =====
-- Verification library for go-asyncapi, a generator of Go code from AsyncAPI documents.
--
-- The tool reads documents, following their references to other documents (internal/locator,
-- internal/jsonpointer), compiles them to artifacts and promises, binds the promises to artifacts
-- (internal/linker), selects artifacts by the layout rules of its configuration
-- (internal/selector, cmd/go-asyncapi/config.go) and renders them by templates into files
-- (internal/renderer, internal/tmpl/manager). The parts and their files:
--
-- - Common: the shared types, Boolean tests and lemmas; GoMap is Go's map, Strings what the code
--   uses of package strings. A string is the list of its bytes.
-- - Types: internal/types. Stack is SimpleStack, OrderedMap is OrderedMap with its Go map and its
--   slice of keys, Union is Union2 read and written as JSON.
-- - Jsonpointer: internal/jsonpointer/url.go. `parse` is Parse, `parse_reference` the function parse
--   behind it, `pointer_string` PointerString. Escape is the escaping of net/url for a path part;
--   url.Parse, URL.String and strings.TrimSpace are the parameter `UrlPackage`.
-- - Locator: internal/locator. `resolve_url` and `join_base` are ResolveURL and joinBase, Path is the
--   lexical part of Go's package path, CommandLine is parseCommandLine.
-- - Compilation: the queue of documents, runCompilation of cmd/go-asyncapi/code.go; loading and
--   compiling one document is a parameter. Its loop has fuel, and where the references lead to
--   finitely many locations some fuel is enough.
-- - Linker: internal/linker/linker.go. `resolve_promises` is the loop of ResolvePromises,
--   `resolve_promise` the recursive resolvePromise; a panic is the outcome `panicked`. The order in
--   which Go goes over the documents is an argument, one list of the promises for each round. Rounds
--   and recursion have fuel; more rounds and fuel than there are promises are enough. Lists is
--   ResolveListPromises, for which two rounds are enough.
-- - Selector: internal/selector/selector.go and the layout options of internal/common/opts.go.
-- - Namespace and RenderManager: internal/tmpl/manager. The manager's pointers that Commit shares
--   with the committed state are modelled by two marks, so that a write through them is seen there.
-- - Renderer: internal/renderer/code.go. `render_artifacts` is RenderArtifacts; what a template does
--   is a parameter, a function of the template's text, the item and the manager to a result, new
--   imports and a new namespace. Fuel beyond the length of the queue is enough.
-- - Config: cmd/go-asyncapi/config.go. `merge_config` is mergeConfig, in a function for each part.
-- - Commands: the flags of code.go, client.go, infra.go, ui.go and diagram.go in cmd/go-asyncapi, and
--   their merge into the configuration.
-- - Promise: the promises and references of internal/render/lang, promise.go and ref.go, and
--   DerefArtifact; the types that Go's type parameter stands for are tests on the artifacts.
-- - Context: internal/compiler/compile/context.go and the storage of internal/compiler/compiler.go;
--   `put_promise` is PutPromise, `generate_obj_name` GenerateObjName.
-- - Walk: internal/compiler/walk.go. `walk` is WalkAndCompile over what package reflect shows of a
--   document; the Compile methods are a parameter, for which Objects/Walked puts those of the
--   objects. It recurs on the value and needs no fuel. Walk/Leads says which keys lead to
--   an object.
-- - Names: ToGolangName and transformInitialisms of internal/utils/names.go; the case conversions of
--   samber/lo and the Aho-Corasick automaton are the parameter `CasePackage`. Letters are ASCII.
-- - Schema: internal/asyncapi/object.go, from a schema object to the Go types of
--   internal/render/lang. Parts has the methods without a context, Build has build and the methods
--   that it calls, with the names of the source in snake case. Location is parseRuntimeExpression of
--   internal/asyncapi/utils.go.
-- - Render: the artifacts of internal/render as records; what a promise and a list promise are is a
--   parameter. Linked and Related are the methods by which the linked artifacts find what they are
--   bound to; artifacts are numbers, slices.SortFunc is a parameter, and the unwrapping of references
--   has fuel, which running out is a panic like that of an endless recursion.
-- - Objects: the other objects of internal/asyncapi (channels, operations, replies, messages, servers,
--   security schemes, parameters, variables, bindings and the root). Monad is the state and the
--   errors of their methods, Build and Entities are the build methods, Compile the Compile methods;
--   a list promise is the name of what its callback selects. Decoding a binding's value and semver
--   are the parameter `Decoders`.
-- - Imports: AddImport of internal/tmpl/manager/import.go.
-- - Functions: functions of internal/tmpl/functions.go that the templates call: those on texts;
--   Importing, those that import packages, artifacts and extra code; Expressions and Extraction, the
--   code for a runtime expression, where the Go types are a graph of numbers, templateGoUsage and
--   strconv.Quote are parameters, and the loop has fuel, which is enough where the chains of wrappers
--   are finite.
-- - Run: the run-time library; Ring is run/ring.go, whose elements are known by their addresses.
-- - Examples: the theorems at concrete inputs.
--
-- Not modelled: reading files, HTTP and processes; the YAML and JSON decoders; the templates; the
-- commands other than the merge of their flags; the run-time library but for the ring. The assembly of
-- the finished files is left out too.
pub mod Common
pub mod Types
pub mod Jsonpointer
pub mod Linker
pub mod Selector
pub mod Locator
pub mod Namespace
pub mod RenderManager
pub mod Renderer
pub mod Config
pub mod Commands
pub mod Compilation
pub mod Context
pub mod Names
pub mod Schema
pub mod Render
pub mod Objects
pub mod Promise
pub mod Walk
pub mod Imports
pub mod Functions
pub mod Run
pub mod Examples
