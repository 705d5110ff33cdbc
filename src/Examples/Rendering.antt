-- ===== src/Examples/Rendering.antt =====
-- The rendering of internal/renderer and internal/tmpl/manager at concrete values: the template of
-- artifact 1 needs artifact 2, which a later item of the queue declares.
use go_asyncapi.Common.{
  ℕ, ◌≡◌, ◌≢◌, refl, Bool, true, false, Option, none, some, List, [], ◌∷◌, Bytes, codes, map, arith,
  list_beq, eqb,
}
use mathlib.Core.List.{Perm, cons-ne-nil}
use go_asyncapi.Common.GoMap.{lookup, insert, delete}
use go_asyncapi.Selector.{CodeLayoutItemOpts}
use go_asyncapi.Namespace.{
  NamespaceArtifactItem, declare_artifact, declare_in, find_artifact, find_in, new_namespace,
}
use go_asyncapi.RenderManager.{
  RenderManager, new_render_manager, begin_file, commit, set_code_object, write_imports,
  write_namespace, write_buffer,
}
use go_asyncapi.RenderManager.Transaction.{Work, Commits, IsKeyed, commit-begin_file}
use go_asyncapi.Renderer.{
  Rendered, rendered, not_pinned, TemplateRun, RenderQueueItem, Outcome, done, out_of_fuel,
  render_artifacts, render_round, render_item, render_object,
}
use go_asyncapi.Renderer.Exactly.{Job, job, Runs, render_artifacts-Perm}
use go_asyncapi.Renderer.Progress.{render_artifacts-ends}

abbrev layout : CodeLayoutItemOpts
layout = record {
  layout_protocols = [];
  artifact_kinds = [];
  module_url_re = [];
  path_re = [];
  name_re = [];
  negated = false;
  render = record {
    template = [];
    file = codes "f.go";
    package_name = codes "p";
    render_protocols = [];
  };
}

abbrev item : ℕ → RenderQueueItem ℕ
item n = record { layout_item = layout; object = n; err = none }

abbrev queue : List (RenderQueueItem ℕ)
queue = item 1 ∷ item 2 ∷ []

abbrev same_text : Bytes → Bytes
same_text s = s

-- The file's name is the text of the expression.
abbrev run_inline : Bytes → RenderQueueItem ℕ → RenderManager ℕ → TemplateRun ℕ ℕ
run_inline text i r = record {
  imports = r.imports;
  namespace = r.namespace;
  result = rendered text;
}

abbrev declaration : RenderManager ℕ → ℕ → NamespaceArtifactItem
declaration r n = record {
  object = n;
  layout = layout;
  file_name = r.file_name;
  package_name = r.package_name;
  rendered = true;
}

abbrev needs_second : Option NamespaceArtifactItem → Bool → Rendered ℕ
needs_second none true = not_pinned 9
needs_second none false = rendered (codes "x")
needs_second (some i) b = rendered (codes "x")

abbrev run_template : Bytes → RenderQueueItem ℕ → RenderManager ℕ → TemplateRun ℕ ℕ
run_template t i r = record {
  imports = r.imports;
  namespace = declare_artifact r.namespace (declaration r i.object);
  result = needs_second (find_artifact r.namespace 2) (eqb i.object 1);
}

abbrev result_of : Outcome ℕ ℕ → RenderManager ℕ
result_of (done r) = r
result_of o = new_render_manager

abbrev start : RenderManager ℕ
start = new_render_manager

abbrev rendering : Outcome ℕ ℕ
rendering = render_artifacts run_inline run_template same_text same_text 3 queue start

finishes : rendering ≡ done (result_of rendering)
unfolding render_artifacts render_round render_item render_object begin_file commit set_code_object
    write_imports write_namespace write_buffer lookup insert delete declare_artifact declare_in
    find_artifact find_in list_beq
finishes = refl

render_artifacts-Perm_example :
    (jobs : List Job) × Runs run_inline run_template same_text same_text start jobs
      (result_of rendering)
    × Perm jobs (map job queue)
render_artifacts-Perm_example =
    render_artifacts-Perm run_inline run_template same_text same_text 3 queue start
      (result_of rendering) finishes

render_artifacts-ends_example :
    render_artifacts run_inline run_template same_text same_text 3 queue start ≢ out_of_fuel
render_artifacts-ends_example =
    render_artifacts-ends run_inline run_template same_text same_text 3 queue start (omega arith)

abbrev some_work : Work ℕ
some_work = record { output = codes "x"; imports = []; namespace = new_namespace }

no_states : IsKeyed []
unfolding lookup
no_states h st e = cc e

commit-begin_file_example : Commits same_text (codes "f.go") [] start some_work
commit-begin_file_example =
    commit-begin_file same_text (codes "f.go") [] start some_work (cons-ne-nil 102 (codes ".go"))
      no_states
