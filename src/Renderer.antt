-- ===== src/Renderer.antt =====
-- RenderArtifacts of internal/renderer/code.go: the queue of artifacts is rendered in rounds, and an
-- artifact whose template asks for one that no file holds yet waits for the next round. The
-- templates are not the program's code: `execute_inline` and `execute_template` stand for a run of
-- text/template, which returns a text or an error and may change the imports and the namespace.
-- `get_package_name` and `to_go_file_path` are utils.GetPackageName and utils.ToGoFilePath.
pub mod Progress
pub mod Exactly
use go_asyncapi.Common.{
  ℕ, zero, suc, ◌≡◌, Bool, true, false, Option, none, some, List, [], ◌∷◌, ◌++◌, Bytes,
  if◌then◌else◌, eqb, length,
}
use go_asyncapi.Selector.{CodeLayoutItemOpts}
use go_asyncapi.Namespace.{NamespaceManager}
use go_asyncapi.RenderManager.{
  Imports, RenderManager, set_code_object, write_imports, write_namespace, write_buffer, begin_file,
  commit,
}

-- An error, by whether it is tmpl.ErrNotPinned.
pub data Rendered (E : Type 0) : Type 0 where
  rendered : Bytes → Rendered E
  not_pinned : E → Rendered E
  failed : E → Rendered E

pub record TemplateRun (O E : Type 0) : Type 0 where
  pub imports : Imports
  pub namespace : NamespaceManager O
  pub result : Rendered E

pub record RenderQueueItem (E : Type 0) : Type 0 where
  pub layout_item : CodeLayoutItemOpts
  pub object : ℕ
  pub err : Option E

pub data Failure (E : Type 0) : Type 0 where
  file_name_error : E → Failure E
  object_error : E → Failure E
  objects_not_pinned : List E → Failure E

-- What the body of the inner loop does with an item.
pub data Step (O E : Type 0) : Type 0 where
  committed : RenderManager O → Step O E
  postponed : RenderQueueItem E → RenderManager O → Step O E
  stopped : Failure E → Step O E
  panicked : Step O E

-- A run of the inner loop: the items postponed in it.
pub data Round (O E : Type 0) : Type 0 where
  finished : List (RenderQueueItem E) → RenderManager O → Round O E
  round_stopped : Failure E → Round O E
  round_panicked : Round O E

pub data Outcome (O E : Type 0) : Type 0 where
  done : RenderManager O → Outcome O E
  error : Failure E → Outcome O E
  outcome_panicked : Outcome O E
  out_of_fuel : Outcome O E

-- errors.Join drops the errors that are nil.
abbrev pub join_errors : {E : Type 0} → List (RenderQueueItem E) → List E
join_errors [] = []
join_errors (i ∷ is) = elim i.err [ none ↦ join_errors is | some e ↦ e ∷ join_errors is ]

abbrev pub hold : {O E : Type 0} → RenderQueueItem E → Round O E → Round O E
hold item (finished p r) = finished (item ∷ p) r
hold item (round_stopped f) = round_stopped f
hold item round_panicked = round_panicked

-- mng.Commit() panics where `commit` is `none`.
abbrev pub commit_step : {O E : Type 0} → Option (RenderManager O) → Step O E
commit_step none = panicked
commit_step (some r) = committed r

module _ {O E : Type 0}
    (execute_inline execute_template : Bytes
      → RenderQueueItem E
      → RenderManager O
      → TemplateRun O E)
    (get_package_name to_go_file_path : Bytes → Bytes) where
  -- What a run of a template leaves in the manager.
  abbrev pub after_run : RenderManager O → TemplateRun O E → RenderManager O
  after_run r t = write_namespace (write_imports r t.imports) t.namespace

  -- renderObject in the begun file and the switch after it: the output is written if there is one.
  unfoldable pub render_object : RenderQueueItem E → RenderManager O → Step O E
  render_object item r =
      let run = execute_template item.layout_item.render.template item r in
      let r1 = after_run r run in
      elim run.result [
        | rendered text ↦ commit_step (commit (write_buffer r1 text))
        | not_pinned e ↦ postponed (record item { err = some e }) r1
        | failed e ↦ stopped (object_error e)
      ]

  unfoldable pub render_item : RenderQueueItem E → RenderManager O → Step O E
  unfolding render_object
  render_item item r =
      let r0 = set_code_object r item.object item.layout_item in
      let run = execute_inline item.layout_item.render.file item r0 in
      let r1 = after_run r0 run in
      elim run.result [
        | rendered name ↦ render_object item (
            begin_file get_package_name (to_go_file_path name) item.layout_item.render.package_name
              r1)
        | not_pinned e ↦ postponed item r1
        | failed e ↦ stopped (file_name_error e)
      ]

  unfoldable pub render_round : List (RenderQueueItem E) → RenderManager O → Round O E
  render_round [] r = finished [] r
  render_round (item ∷ queue) r = elim (render_item item r) [
    | committed r1 ↦ render_round queue r1
    | postponed item' r1 ↦ hold item' (render_round queue r1)
    | stopped f ↦ round_stopped f
    | panicked ↦ round_panicked
  ]

  -- The outer loop runs while the queue is not empty, on fuel.
  unfoldable pub render_artifacts : ℕ → List (RenderQueueItem E) → RenderManager O → Outcome O E
  render_artifacts zero queue r = out_of_fuel
  render_artifacts (suc fuel) [] r = done r
  render_artifacts (suc fuel) (i ∷ is) r = elim (render_round (i ∷ is) r) [
    | finished p r1 ↦ elim (eqb (length p) (length (i ∷ is))) [
      | true ↦ error (objects_not_pinned (join_errors p))
      | false ↦ render_artifacts fuel p r1
    ]
    | round_stopped f ↦ error f
    | round_panicked ↦ outcome_panicked
  ]
