-- ===== src/Supervisor/Pipeline.antt =====
-- src/supervisor/supervisor.cpp: the gate over all services. Time is in nanoseconds, the grace in
-- seconds; the log line is left out.
pub mod Markers
pub mod Grace
mod Tests
use Prim.Native.String.{String}
use text.Mathlib.Text.{◌==◌ as str_eq}
use lclva.Prelude.{
  ℕ, ◌+◌, ◌-◌, ◌*◌, List, [], ◌∷◌, ◌++◌, Option, none, some, Bool, true, false, not, ◌||◌, ◌&&◌,
  if◌then◌else◌, leb,
}
use lclva.Event.Types.{Event, error_event}
use lclva.Supervisor.Service.{ServiceState, same_service_state}

pub data PipelineState : Type 0 where
  ok failed no_configured_critical_services : PipelineState

-- What `evaluate_pipeline` reads of a monitor's snapshot.
pub record ServiceView : Type 0 where
  pub name : String
  pub state : ServiceState
  pub fail_pipeline_if_down : Bool

pub record UnhealthyAt : Type 0 where
  pub name : String
  pub since : ℕ

-- `std::find_if` by name: the time of the first entry.
unfoldable pub find_since : String → List UnhealthyAt → Option ℕ
find_since n [] = none
find_since n (u ∷ us) = if str_eq u.name n then some u.since else find_since n us

-- `erase` of that entry.
unfoldable pub erase_since : String → List UnhealthyAt → List UnhealthyAt
erase_since n [] = []
erase_since n (u ∷ us) = if str_eq u.name n then us else u ∷ erase_since n us

-- The variables of the loop.
pub record Scan : Type 0 where
  pub any_critical : Bool
  pub any_failed : Bool
  pub unhealthy_since : List UnhealthyAt

-- The body behind the two `continue`s, for an unhealthy service and for another one.
unfoldable pub scan_unhealthy : (now grace : ℕ) → Option ℕ → String → Scan → Scan
scan_unhealthy now grace none n s = record s {
  any_failed = leb grace 0 || s.any_failed;
  unhealthy_since = s.unhealthy_since ++ record { name = n; since = now } ∷ [];
}
scan_unhealthy now grace (some since) n s = record s {
  any_failed = leb grace (now - since) || s.any_failed;
}

unfoldable pub scan_one : (now grace : ℕ) → ServiceView → Scan → Scan
unfolding scan_unhealthy erase_since find_since
scan_one now grace v s =
    if not v.fail_pipeline_if_down
    then s
    else if same_service_state v.state ServiceState.not_configured
    then s
    else (let s' = record s { any_critical = true } in
        if same_service_state v.state ServiceState.unhealthy
        then scan_unhealthy now grace (find_since v.name s.unhealthy_since) v.name s'
        else record s' { unhealthy_since = erase_since v.name s.unhealthy_since })

unfoldable pub scan : (now grace : ℕ) → List ServiceView → Scan → Scan
scan now grace [] s = s
scan now grace (v ∷ vs) s = scan now grace vs (scan_one now grace v s)

pub record Supervisor : Type 0 where
  pub pipeline_fail_grace_seconds : ℕ
  pub pipeline_state : PipelineState
  pub unhealthy_since : List UnhealthyAt
  pub published : List Event

unfoldable pub next_state : Scan → PipelineState
next_state s =
    if not s.any_critical
    then PipelineState.no_configured_critical_services
    else if s.any_failed
    then PipelineState.failed
    else PipelineState.ok

abbrev same_pipeline_state : PipelineState → PipelineState → Bool
same_pipeline_state PipelineState.ok PipelineState.ok = true
same_pipeline_state PipelineState.failed PipelineState.failed = true
same_pipeline_state PipelineState.no_configured_critical_services
      PipelineState.no_configured_critical_services =
    true
same_pipeline_state _ _ = false

abbrev is_failed : PipelineState → Bool
is_failed PipelineState.failed = true
is_failed _ = false

unfoldable pub evaluate_pipeline : ℕ → List ServiceView → Supervisor → Supervisor
unfolding next_state
evaluate_pipeline now services sup =
    let grace = sup.pipeline_fail_grace_seconds * 1000000000 in
    let s = scan now grace services (record {
      any_critical = false;
      any_failed = false;
      unhealthy_since = sup.unhealthy_since;
    }) in
    let next = next_state s in
    record sup {
      pipeline_state = next;
      unhealthy_since = s.unhealthy_since;
      published =
          if not (same_pipeline_state sup.pipeline_state next) && is_failed next
          then error_event "supervisor" "pipeline failed: critical service unhealthy past grace"
            ∷ sup.published
          else sup.published;
    }
