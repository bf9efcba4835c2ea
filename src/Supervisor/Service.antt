-- ===== src/Supervisor/Service.antt =====
-- src/supervisor/service.hpp and service.cpp: the monitor of one service. The probe is a function of
-- the program's environment, so its results are the input; the worker's loop is a fold over them, in
-- `run`, and its sleeps give only the interval. Log lines and the test hook are left out.
pub mod Debounce
mod Tests
use Prim.Native.String.{String}
use lclva.Prelude.{ℕ, ◌+◌, ◌==◌, List, [], ◌∷◌, Bool, true, false, if◌then◌else◌, leb, u32, u64}
use lclva.Event.Types.{Event, HealthState, unknown, health_changed}

pub data ServiceState : Type 0 where
  not_configured probing healthy degraded unhealthy : ServiceState

unfoldable pub to_health_state : ServiceState → HealthState
to_health_state ServiceState.not_configured = HealthState.unknown
to_health_state ServiceState.probing = HealthState.unknown
to_health_state ServiceState.healthy = HealthState.healthy
to_health_state ServiceState.degraded = HealthState.degraded
to_health_state ServiceState.unhealthy = HealthState.unhealthy

abbrev pub same_service_state : ServiceState → ServiceState → Bool
same_service_state ServiceState.not_configured ServiceState.not_configured = true
same_service_state ServiceState.probing ServiceState.probing = true
same_service_state ServiceState.healthy ServiceState.healthy = true
same_service_state ServiceState.degraded ServiceState.degraded = true
same_service_state ServiceState.unhealthy ServiceState.unhealthy = true
same_service_state _ _ = false

abbrev pub same_health_state : HealthState → HealthState → Bool
same_health_state HealthState.unknown HealthState.unknown = true
same_health_state HealthState.healthy HealthState.healthy = true
same_health_state HealthState.degraded HealthState.degraded = true
same_health_state HealthState.unhealthy HealthState.unhealthy = true
same_health_state _ _ = false

pub record ServiceConfig : Type 0 where
  pub name : String
  pub has_url : Bool  -- whether `health_url` is not empty
  pub fail_pipeline_if_down : Bool
  pub probe_interval_healthy : ℕ
  pub probe_interval_degraded : ℕ
  pub degraded_max_failures : ℕ  -- std::uint32_t

-- What a probe returns, and the time at which it is applied.
pub record ProbeResult : Type 0 where
  pub ok : Bool
  pub http_status : ℕ
  pub latency : ℕ
  pub body_excerpt : String
  pub at : ℕ

pub record ServiceMonitor : Type 0 where
  pub cfg : ServiceConfig
  pub open cfg use *
  pub state : ServiceState
  pub last_probe_at : ℕ
  pub last_ok_at : ℕ
  pub consecutive_failures : ℕ  -- std::uint32_t
  pub total_probes : ℕ  -- std::uint64_t
  pub total_failures : ℕ  -- std::uint64_t
  pub last_http_status : ℕ
  pub last_error : String
  pub last_latency : ℕ
  pub published : List Event

-- The constructor.
unfoldable pub service_monitor : ServiceConfig → ServiceMonitor
service_monitor cfg = record {
  cfg = cfg;
  state = if cfg.has_url then ServiceState.probing else ServiceState.not_configured;
  last_probe_at = 0;
  last_ok_at = 0;
  consecutive_failures = 0;
  total_probes = 0;
  total_failures = 0;
  last_http_status = 0;
  last_error = "";
  last_latency = 0;
  published = [];
}

unfoldable pub current_interval : ServiceMonitor → ℕ
current_interval m =
    if same_service_state m.state ServiceState.healthy
    then m.probe_interval_healthy
    else m.probe_interval_degraded

-- The publications behind `publish_if_changed`.
announce : ServiceState → ServiceMonitor → List Event
unfolding to_health_state
announce prev m =
    let prev_pub = to_health_state prev in
    let next_pub = to_health_state m.state in
    if same_service_state prev m.state
    then m.published
    else if same_health_state prev_pub next_pub
    then m.published
    else health_changed m.name next_pub m.last_error ∷ m.published

unfoldable pub publish_if_changed : ServiceState → ServiceMonitor → ServiceMonitor
unfolding announce
publish_if_changed prev m = record m { published = announce prev m }

-- The part of `apply_result` under the lock.
record_result : ServiceMonitor → ProbeResult → ServiceMonitor
record_result m r =
    let m' = record m {
      total_probes = u64 (m.total_probes + 1);
      last_probe_at = r.at;
      last_http_status = r.http_status;
      last_latency = r.latency;
      last_error = r.body_excerpt;
    } in
    if r.ok
    then record m' { consecutive_failures = 0; last_ok_at = r.at; state = ServiceState.healthy }
    else (let failures = u32 (m.consecutive_failures + 1) in
        record m' {
          consecutive_failures = failures;
          total_failures = u64 (m.total_failures + 1);
          state =
              if leb m.degraded_max_failures failures
              then ServiceState.unhealthy
              else ServiceState.degraded;
        })

unfoldable pub apply_result : ServiceMonitor → ProbeResult → ServiceMonitor
unfolding record_result publish_if_changed
apply_result m r = publish_if_changed m.state (record_result m r)

-- The rounds of `run_loop`, one for each probe that comes back while the monitor runs.
unfoldable pub run : ServiceMonitor → List ProbeResult → ServiceMonitor
run m [] = m
run m (r ∷ rs) = run (apply_result m r) rs
