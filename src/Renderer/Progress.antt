-- ===== src/Renderer/Progress.antt =====
-- RenderArtifacts of internal/renderer/code.go ends.
use go_asyncapi.Common.{
  ℕ, zero, suc, ◌≢◌, ◌<◌, ◌≤◌, List, [], ◌∷◌, Bytes, arith, eqb, length, inl, inr, Bool-cases,
}
use mathlib.Core.Path.{subst}
use go_asyncapi.RenderManager.{RenderManager}
use go_asyncapi.Renderer.{
  TemplateRun, RenderQueueItem, Round, Outcome, finished, round_stopped, round_panicked, done,
  error, outcome_panicked, out_of_fuel, hold, render_item, render_round, render_artifacts,
}
use go_asyncapi.Renderer.Exactly.{Round-cases, Step-cases}

module _ {O E : Type 0}
    (execute_inline execute_template : Bytes
      → RenderQueueItem E
      → RenderManager O
      → TemplateRun O E)
    (get_package_name to_go_file_path : Bytes → Bytes) where
  abbrev AtMost : ℕ → Round O E → Type 0
  AtMost n (finished p r) = length p ≤ n
  AtMost n (round_stopped f) = Unit
  AtMost n round_panicked = Unit

  AtMost-hold :
      (n : ℕ) (item : RenderQueueItem E) (x : Round O E) → AtMost n x → AtMost (suc n) (hold item x)
  AtMost-hold n item (finished p r) h = omega arith
  AtMost-hold n item (round_stopped f) h = tt
  AtMost-hold n item round_panicked h = tt

  AtMost-suc : (n : ℕ) (x : Round O E) → AtMost n x → AtMost (suc n) x
  AtMost-suc n (finished p r) h = omega arith
  AtMost-suc n (round_stopped f) h = tt
  AtMost-suc n round_panicked h = tt

  render_round-AtMost :
      (queue : List (RenderQueueItem E)) (r : RenderManager O)
      → AtMost
          (length queue)
          (render_round execute_inline execute_template get_package_name to_go_file_path queue r)
  unfolding render_round
  render_round-AtMost [] r = omega arith
  render_round-AtMost (item ∷ queue) r =
      let step = render_item execute_inline execute_template get_package_name to_go_file_path in
      let round = render_round execute_inline execute_template get_package_name to_go_file_path in
      elim (Step-cases (step item r)) [
        | inl (r1, e) ↦
            rw (e, AtMost, render_round)
              (AtMost-suc (length queue) (round queue r1) (render_round-AtMost queue r1))
        | inr (inl (item', r1, e)) ↦
            rw (e, AtMost, render_round)
              (AtMost-hold (length queue) item' (round queue r1) (render_round-AtMost queue r1))
        | inr (inr (inl (f, e))) ↦ rw (e, AtMost, render_round) tt
        | inr (inr (inr e)) ↦ rw (e, AtMost, render_round) tt
      ]

  abbrev Ended : Outcome O E → Type 0
  Ended (done r) = Unit
  Ended (error f) = Unit
  Ended outcome_panicked = Unit
  Ended out_of_fuel = ⊥

  render_artifacts-Ended :
      (fuel : ℕ) (queue : List (RenderQueueItem E)) (r : RenderManager O)
      → length queue < fuel
      → Ended (
          render_artifacts execute_inline execute_template get_package_name to_go_file_path fuel
            queue r)
  unfolding render_artifacts
  render_artifacts-Ended zero queue r h = omega arith
  render_artifacts-Ended (suc fuel) [] r h = tt
  render_artifacts-Ended (suc fuel) (i ∷ is) r h =
      let round = render_round execute_inline execute_template get_package_name to_go_file_path in
      elim (Round-cases (round (i ∷ is) r)) [
        | inl (p, r1, e) ↦
            let short : length p ≤ suc (length is) =
              subst (AtMost (suc (length is))) e (render_round-AtMost (i ∷ is) r) in
            rw (e, Ended, render_artifacts)
              (elim (Bool-cases (eqb (length p) (length (i ∷ is)))) [
                | inl q ↦ rw (q, Ended) tt
                | inr q ↦ rw (q, Ended) (render_artifacts-Ended fuel p r1 (ground arith))
              ])
        | inr (inl (f, e)) ↦ rw (e, Ended, render_artifacts) tt
        | inr (inr e) ↦ rw (e, Ended, render_artifacts) tt
      ]

  -- The rendering ends, whatever the templates do: fuel that exceeds the length of the queue is
  -- enough, since a round that is not the last one postpones fewer items than it was given.
  pub render_artifacts-ends :
      (fuel : ℕ) (queue : List (RenderQueueItem E)) (r : RenderManager O)
      → length queue < fuel
      → render_artifacts execute_inline execute_template get_package_name to_go_file_path fuel queue
          r
        ≢ out_of_fuel
  render_artifacts-ends fuel queue r h e = subst Ended e (render_artifacts-Ended fuel queue r h)
