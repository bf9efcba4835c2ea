-- ===== src/Supervisor/Service/Tests.antt =====
-- A monitor that tolerates two failures in a row.
use lclva.Prelude.{◌≡◌, refl, List, [], ◌∷◌, Bool, true, false, arith}
use lclva.Event.Types.{HealthState, health_changed}
use lclva.Supervisor.Service.{
  ServiceState, ServiceConfig, ProbeResult, service_monitor, to_health_state, apply_result, run,
}
use lclva.Supervisor.Service.Debounce.{state_of_probes, told, AllChange, published_tracks}

abbrev llm : ServiceConfig
llm = record {
  name = "llm";
  has_url = true;
  fail_pipeline_if_down = true;
  probe_interval_healthy = 5000;
  probe_interval_degraded = 1000;
  degraded_max_failures = 3;
}

abbrev probe : Bool → ProbeResult
probe ok = record { ok = ok; http_status = 0; latency = 1; body_excerpt = ""; at = 9 }

abbrev probes : List ProbeResult
probes = probe true ∷ probe false ∷ probe false ∷ probe false ∷ []

published_probes :
    (run (service_monitor llm) probes).published
    ≡ health_changed "llm" HealthState.unhealthy ""
      ∷ health_changed "llm" HealthState.degraded ""
      ∷ health_changed "llm" HealthState.healthy ""
      ∷ []
unfolding run service_monitor apply_result
published_probes = refl

state_of_probes_example :
    ((run (service_monitor llm) probes).consecutive_failures ≡ 3)
    × ((run (service_monitor llm) probes).state ≡ ServiceState.unhealthy)
state_of_probes_example =
    state_of_probes llm (probe true) (probe false ∷ probe false ∷ probe false ∷ []) (omega arith)

probes_published :
    let m = run (service_monitor llm) probes in
    (told m.published ≡ to_health_state m.state) × AllChange m.published
probes_published = published_tracks llm probes
