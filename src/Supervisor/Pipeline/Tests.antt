-- ===== src/Supervisor/Pipeline/Tests.antt =====
-- A language model that is down, beside an optional memory service.
use lclva.Prelude.{◌≡◌, refl, List, [], ◌∷◌, true, false, All}
use lclva.Event.Types.{error_event}
use lclva.Supervisor.Service.{ServiceState}
use lclva.Supervisor.Pipeline.{
  PipelineState, ServiceView, Supervisor, find_since, scan, scan_one, evaluate_pipeline,
}
use lclva.Supervisor.Pipeline.Markers.{marker, Single}
use lclva.Supervisor.Pipeline.Grace.{evaluate_pipeline_lem}

abbrev services : List ServiceView
services =
    record { name = "llm"; state = ServiceState.unhealthy; fail_pipeline_if_down = true }
    ∷ record { name = "memory"; state = ServiceState.unhealthy; fail_pipeline_if_down = false }
    ∷ []

abbrev supervisor : Supervisor
supervisor = record {
  pipeline_fail_grace_seconds = 30;
  pipeline_state = PipelineState.ok;
  unhealthy_since = record { name = "llm"; since = 1000000000 } ∷ [];
  published = [];
}

evaluate_pipeline_example :
    let sup = evaluate_pipeline 31000000000 services supervisor in
    (sup.pipeline_state ≡ PipelineState.failed)
    × (sup.published
        ≡ error_event "supervisor" "pipeline failed: critical service unhealthy past grace" ∷ [])
    × All
        (λ (v : ServiceView).
          find_since v.name sup.unhealthy_since
          ≡ marker 31000000000 v (find_since v.name supervisor.unhealthy_since))
        services
    × Single sup.unhealthy_since
unfolding find_since
evaluate_pipeline_example =
    evaluate_pipeline_lem 31000000000 services supervisor ((refl, tt), (tt, tt)) (refl, tt)

still_ok : (evaluate_pipeline 30999999999 services supervisor).pipeline_state ≡ PipelineState.ok
unfolding evaluate_pipeline scan scan_one
still_ok = refl
