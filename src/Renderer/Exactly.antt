-- ===== src/Renderer/Exactly.antt =====
-- RenderArtifacts of internal/renderer/code.go: what is committed when it ends without an error.
use mathlib.Core.List.{Perm}
use mathlib.Core.List.Permᴰ
use mathlib.Core.List.{Permᴰ}
use go_asyncapi.Common.{
  ℕ, zero, suc, ◌≡◌, refl, Option, none, some, List, [], ◌∷◌, ◌++◌, Bytes, map, eqb, length, ◌⊎◌,
  inl, inr, Bool-cases,
}
use go_asyncapi.Selector.{CodeLayoutItemOpts}
use mathlib.Core.Path.{subst}
use go_asyncapi.RenderManager.{RenderManager, begin_file, commit, write_buffer, set_code_object}
use go_asyncapi.Renderer.{
  Rendered, TemplateRun, RenderQueueItem, Failure, Step, Round, Outcome, committed, postponed,
  stopped, panicked, finished, round_stopped, round_panicked, done, error, outcome_panicked,
  out_of_fuel, hold, render_item, render_round, render_artifacts, render_object, commit_step,
  rendered, not_pinned, failed, after_run,
}

-- What of an item of the queue never changes: the layout item and the artifact.
abbrev pub Job : Type 0
Job = CodeLayoutItemOpts × ℕ

abbrev pub job : {E : Type 0} → RenderQueueItem E → Job
job item = (item.layout_item, item.object)

Rendered-cases :
    {E : Type 0} (x : Rendered E)
    → ((b : Bytes) × (x ≡ rendered b))
      ⊎ (((e : E) × (x ≡ not_pinned e)) ⊎ ((e : E) × (x ≡ failed e)))
Rendered-cases (rendered b) = inl (b, refl)
Rendered-cases (not_pinned e) = inr (inl (e, refl))
Rendered-cases (failed e) = inr (inr (e, refl))

pub Step-cases :
    {O E : Type 0} (x : Step O E)
    → ((r : RenderManager O) × (x ≡ committed r))
      ⊎ (((i : RenderQueueItem E) × (r : RenderManager O) × (x ≡ postponed i r))
          ⊎ (((f : Failure E) × (x ≡ stopped f)) ⊎ (x ≡ panicked)))
Step-cases (committed r) = inl (r, refl)
Step-cases (postponed i r) = inr (inl (i, r, refl))
Step-cases (stopped f) = inr (inr (inl (f, refl)))
Step-cases panicked = inr (inr (inr refl))

pub Round-cases :
    {O E : Type 0} (x : Round O E)
    → ((p : List (RenderQueueItem E)) × (r : RenderManager O) × (x ≡ finished p r))
      ⊎ (((f : Failure E) × (x ≡ round_stopped f)) ⊎ (x ≡ round_panicked))
Round-cases (finished p r) = inl (p, r, refl)
Round-cases (round_stopped f) = inr (inl (f, refl))
Round-cases round_panicked = inr (inr refl)

module _ {O E : Type 0}
    (execute_inline execute_template : Bytes
      → RenderQueueItem E
      → RenderManager O
      → TemplateRun O E)
    (get_package_name to_go_file_path : Bytes → Bytes) where
  -- A run of the loops' body that commits these jobs, in this order; an item that is postponed
  -- changes the manager, and commits nothing.
  pub data Runs : RenderManager O → List Job → RenderManager O → Type 0 where
    ended : {r : RenderManager O} → Runs r [] r
    commits :
        {r r1 r2 : RenderManager O} {jobs : List Job} (item : RenderQueueItem E)
        → render_item execute_inline execute_template get_package_name to_go_file_path item r
          ≡ committed r1
        → Runs r1 jobs r2
        → Runs r (job item ∷ jobs) r2
    postpones :
        {r r1 r2 : RenderManager O} {jobs : List Job} (item item' : RenderQueueItem E)
        → render_item execute_inline execute_template get_package_name to_go_file_path item r
          ≡ postponed item' r1
        → Runs r1 jobs r2
        → Runs r jobs r2

  Runs-append :
      {r r1 r2 : RenderManager O} {a b : List Job} → Runs r a r1 → Runs r1 b r2 → Runs r (a ++ b) r2
  Runs-append ended t = t
  Runs-append (commits item e s) t = commits item e (Runs-append s t)
  Runs-append (postpones item item' e s) t = postpones item item' e (Runs-append s t)

  -- A round commits some of the queue's jobs, and postpones the others.
  abbrev RoundCommits : RenderManager O → List (RenderQueueItem E) → Round O E → Type 0
  RoundCommits r queue (finished p r') =
      (jobs : List Job) × Runs r jobs r' × Permᴰ (jobs ++ map job p) (map job queue)
  RoundCommits r queue (round_stopped f) = Unit
  RoundCommits r queue round_panicked = Unit

  hold-RoundCommits :
      (item item' : RenderQueueItem E) (queue : List (RenderQueueItem E)) (r r1 : RenderManager O)
      (x : Round O E)
      → render_item execute_inline execute_template get_package_name to_go_file_path item r
        ≡ postponed item' r1
      → job item' ≡ job item
      → RoundCommits r1 queue x
      → RoundCommits r (item ∷ queue) (hold item' x)
  hold-RoundCommits item item' queue r r1 (finished p r') e j (jobs, runs, perm) = (
    jobs,
    postpones item item' e runs,
    Permᴰ.trans (Permᴰ.middle (job item') jobs (map job p)) (Permᴰ.cons j perm),
  )
  hold-RoundCommits item item' queue r r1 (round_stopped f) e j h = tt
  hold-RoundCommits item item' queue r r1 round_panicked e j h = tt

  commit-RoundCommits :
      (item : RenderQueueItem E) (queue : List (RenderQueueItem E)) (r r1 : RenderManager O)
      (x : Round O E)
      → render_item execute_inline execute_template get_package_name to_go_file_path item r
        ≡ committed r1
      → RoundCommits r1 queue x
      → RoundCommits r (item ∷ queue) x
  commit-RoundCommits item queue r r1 (finished p r') e (jobs, runs, perm) =
      (job item ∷ jobs, commits item e runs, Permᴰ.cons refl perm)
  commit-RoundCommits item queue r r1 (round_stopped f) e h = tt
  commit-RoundCommits item queue r r1 round_panicked e h = tt

  -- A step keeps the job of the item that it postpones.
  abbrev Keeps : RenderQueueItem E → Step O E → Type 0
  Keeps item (postponed item' r) = job item' ≡ job item
  Keeps item (committed r) = Unit
  Keeps item (stopped f) = Unit
  Keeps item panicked = Unit

  commit_step-Keeps :
      (item : RenderQueueItem E) (o : Option (RenderManager O)) → Keeps item (commit_step o)
  commit_step-Keeps item none = tt
  commit_step-Keeps item (some r) = tt

  render_object-Keeps :
      (item : RenderQueueItem E) (r : RenderManager O)
      → Keeps item
          (render_object execute_inline execute_template get_package_name to_go_file_path item r)
  unfolding render_object
  render_object-Keeps item r =
      let run = execute_template item.layout_item.render.template item r in
      let r1 = after_run execute_inline execute_template get_package_name to_go_file_path r run in
      elim (Rendered-cases run.result) [
        | inl (b, e) ↦
            rw (e, Keeps, render_object) (commit_step-Keeps item (commit (write_buffer r1 b)))
        | inr (inl (x, e)) ↦ rw (e, Keeps, render_object) refl
        | inr (inr (x, e)) ↦ rw (e, Keeps, render_object) tt
      ]

  render_item-Keeps :
      (item : RenderQueueItem E) (r : RenderManager O)
      → Keeps item
          (render_item execute_inline execute_template get_package_name to_go_file_path item r)
  unfolding render_item
  render_item-Keeps item r =
      let r0 = set_code_object r item.object item.layout_item in
      let run = execute_inline item.layout_item.render.file item r0 in
      let r1 = after_run execute_inline execute_template get_package_name to_go_file_path r0 run in
      elim (Rendered-cases run.result) [
        | inl (b, e) ↦
            rw (e, Keeps, render_item)
              (render_object-Keeps item (
                begin_file get_package_name (to_go_file_path b) item.layout_item.render.package_name
                  r1))
        | inr (inl (x, e)) ↦ rw (e, Keeps, render_item) refl
        | inr (inr (x, e)) ↦ rw (e, Keeps, render_item) tt
      ]

  render_round-RoundCommits :
      (queue : List (RenderQueueItem E)) (r : RenderManager O)
      → RoundCommits r queue
          (render_round execute_inline execute_template get_package_name to_go_file_path queue r)
  unfolding render_round
  render_round-RoundCommits [] r = ([], ended, Permᴰ.nil)
  render_round-RoundCommits (item ∷ queue) r =
      let step = render_item execute_inline execute_template get_package_name to_go_file_path in
      let round = render_round execute_inline execute_template get_package_name to_go_file_path in
      elim (Step-cases (step item r)) [
        | inl (r1, e) ↦
            rw (e, RoundCommits, render_round)
              (commit-RoundCommits item queue r r1 (round queue r1) e
                (render_round-RoundCommits queue r1))
        | inr (inl (item', r1, e)) ↦
            rw (e, RoundCommits, render_round)
              (hold-RoundCommits item item' queue r r1 (round queue r1) e
                (subst (Keeps item) e (render_item-Keeps item r))
                (render_round-RoundCommits queue r1))
        | inr (inr (inl (f, e))) ↦ rw (e, RoundCommits, render_round) tt
        | inr (inr (inr e)) ↦ rw (e, RoundCommits, render_round) tt
      ]

  abbrev Ends : RenderManager O → List (RenderQueueItem E) → Outcome O E → Type 0
  Ends r queue (done r') = (jobs : List Job) × Runs r jobs r' × Permᴰ jobs (map job queue)
  Ends r queue (error f) = Unit
  Ends r queue outcome_panicked = Unit
  Ends r queue out_of_fuel = Unit

  Ends-after :
      (r r1 : RenderManager O) (queue p : List (RenderQueueItem E)) (x : Outcome O E)
      → RoundCommits r queue (finished p r1)
      → Ends r1 p x
      → Ends r queue x
  Ends-after r r1 queue p (done r') (jobs, runs, perm) (later, runs', perm') =
      (jobs ++ later, Runs-append runs runs', Permᴰ.trans (Permᴰ.append_left jobs perm') perm)
  Ends-after r r1 queue p (error f) h k = tt
  Ends-after r r1 queue p outcome_panicked h k = tt
  Ends-after r r1 queue p out_of_fuel h k = tt

  render_artifacts-Ends :
      (fuel : ℕ) (queue : List (RenderQueueItem E)) (r : RenderManager O)
      → Ends r queue (
          render_artifacts execute_inline execute_template get_package_name to_go_file_path fuel
            queue r)
  unfolding render_artifacts
  render_artifacts-Ends zero queue r = tt
  render_artifacts-Ends (suc fuel) [] r = ([], ended, Permᴰ.nil)
  render_artifacts-Ends (suc fuel) (i ∷ is) r =
      let round = render_round execute_inline execute_template get_package_name to_go_file_path in
      elim (Round-cases (round (i ∷ is) r)) [
        | inl (p, r1, e) ↦
            rw (e, Ends, render_artifacts)
              (elim (Bool-cases (eqb (length p) (length (i ∷ is)))) [
                | inl q ↦ rw (q, Ends) tt
                | inr q ↦
                    rw (q, Ends)
                      (Ends-after r r1 (i ∷ is) p
                        (render_artifacts execute_inline execute_template get_package_name
                          to_go_file_path fuel p r1)
                        (subst (RoundCommits r (i ∷ is)) e (render_round-RoundCommits (i ∷ is) r))
                        (render_artifacts-Ends fuel p r1))
              ])
        | inr (inl (f, e)) ↦ rw (e, Ends, render_artifacts) tt
        | inr (inr e) ↦ rw (e, Ends, render_artifacts) tt
      ]

  -- Where the rendering ends without an error, every artifact of the queue was committed exactly
  -- once, under its own layout item: what was committed, in the order of the commits, is a
  -- permutation of the queue.
  pub render_artifacts-Perm :
      (fuel : ℕ) (queue : List (RenderQueueItem E)) (r r' : RenderManager O)
      → render_artifacts execute_inline execute_template get_package_name to_go_file_path fuel queue
          r
        ≡ done r'
      → (jobs : List Job) × Runs r jobs r' × Perm jobs (map job queue)
  render_artifacts-Perm fuel queue r r' e =
      let (jobs, runs, perm) = subst (Ends r queue) e (render_artifacts-Ends fuel queue r) in
      (jobs, runs, ∣ perm ∣₁)
