-- ===== src/Supervisor/Service/Debounce.antt =====
-- The state of a monitor, told from the probe results alone, and what it publishes.
use lclva.Prelude.{
  ℕ, ◌+◌, ◌^◌, ◌<◌, ◌≡◌, ◌≢◌, sym, ap, ◌∙◌, List, [], ◌∷◌, Bool, true, not, ◌&&◌, arith, u64,
  if◌then◌else◌, leb, ◌==◌, length,
}
use lclva.Event.Types.{Event, HealthState, health_changed}
use lclva.Supervisor.Service.{
  ServiceState, to_health_state, ServiceConfig, ProbeResult, ServiceMonitor, service_monitor,
  apply_result, run,
}

-- Every probe of a list failed.
abbrev pub all_failed : List ProbeResult → Bool
all_failed [] = true
all_failed (r ∷ rs) = not r.ok && all_failed rs

-- The failures behind the last success, after `c` earlier ones in a row.
abbrev pub trailing : ℕ → List ProbeResult → ℕ
trailing c [] = c
trailing c (r ∷ rs) =
    if all_failed rs then (if r.ok then length rs else c + length (r ∷ rs)) else trailing 0 rs

-- The state that belongs to a number of failures in a row.
abbrev pub state_for : ℕ → ℕ → ServiceState
state_for max n =
    if n == 0
    then ServiceState.healthy
    else if leb max n
    then ServiceState.unhealthy
    else ServiceState.degraded

apply_fields :
    (m : ServiceMonitor) (r : ProbeResult)
    → m.consecutive_failures + 1 < 2 ^ 32
    → let m' = apply_result m r in
      let n = if r.ok then 0 else m.consecutive_failures + 1 in
      (m'.consecutive_failures ≡ n)
      × (m'.state ≡ state_for m.degraded_max_failures n)
      × (m'.cfg ≡ m.cfg)
      × (m'.total_probes ≡ u64 (m.total_probes + 1))
      × (m'.total_failures ≡ (if r.ok then m.total_failures else u64 (m.total_failures + 1)))
unfolding apply_result
apply_fields m r b = (ground arith, ground arith, ground arith, ground arith, ground arith)

trailing-step :
    (c : ℕ) (r : ProbeResult) (rs : List ProbeResult)
    → trailing c (r ∷ rs) ≡ trailing (if r.ok then 0 else c + 1) rs
trailing-step c r [] = ground arith
trailing-step c r (r' ∷ rs) = ground arith

run_from :
    (m : ServiceMonitor) (r : ProbeResult) (rs : List ProbeResult)
    → m.consecutive_failures + length (r ∷ rs) < 2 ^ 32
    → let m' = run m (r ∷ rs) in
      let n = trailing m.consecutive_failures (r ∷ rs) in
      (m'.consecutive_failures ≡ n) × (m'.state ≡ state_for m.degraded_max_failures n)
unfolding run
run_from m r [] b =
    let f = apply_fields m r (omega arith) in
    (f.0 ∙ ground arith, f.1 ∙ ap (state_for m.degraded_max_failures) (ground arith))
run_from m r (r' ∷ rs) b =
    let f = apply_fields m r (omega arith) in
    let ih = run_from (apply_result m r) r' rs (ground (arith, f.0)) in
    let t = trailing-step m.consecutive_failures r (r' ∷ rs) in
    let e = ap (λ (c : ℕ). trailing c (r' ∷ rs)) f.0 ∙ sym t in
    (
      ih.0 ∙ e,
      ih.1
          ∙ ap
              (λ (c : ServiceConfig).
                state_for c.degraded_max_failures
                  (trailing (apply_result m r).consecutive_failures (r' ∷ rs)))
              f.2
          ∙ ap (state_for m.degraded_max_failures) e,
    )

-- After any probes of a fresh monitor, at least one and fewer than 2 ^ 32, the failure counter is the
-- number of failures behind the last success, and the state is told by it alone: healthy at none,
-- unhealthy from the configured maximum on, degraded between.
pub state_of_probes :
    (cfg : ServiceConfig) (r : ProbeResult) (rs : List ProbeResult)
    → length (r ∷ rs) < 2 ^ 32
    → let m = run (service_monitor cfg) (r ∷ rs) in
      let n = trailing 0 (r ∷ rs) in
      (m.consecutive_failures ≡ n) × (m.state ≡ state_for cfg.degraded_max_failures n)
unfolding service_monitor
state_of_probes cfg r rs b = run_from (service_monitor cfg) r rs (omega arith)

-- The state that the last publication tells, and that consecutive ones differ.
abbrev pub told : List Event → HealthState
told [] = HealthState.unknown
told (health_changed service state detail ∷ es) = state
told (_ ∷ es) = HealthState.unknown

abbrev pub AllChange : List Event → Type 0
AllChange [] = Unit
AllChange (health_changed service state detail ∷ es) = (state ≢ told es) × AllChange es
AllChange (_ ∷ es) = ⊥

apply-told :
    (m : ServiceMonitor) (r : ProbeResult)
    → told m.published ≡ to_health_state m.state
    → AllChange m.published
    → let m' = apply_result m r in
      (told m'.published ≡ to_health_state m'.state) × AllChange m'.published
unfolding apply_result to_health_state
apply-told m r t a = (ground arith, ground arith)

run-told :
    (m : ServiceMonitor) (rs : List ProbeResult)
    → told m.published ≡ to_health_state m.state
    → AllChange m.published
    → let m' = run m rs in (told m'.published ≡ to_health_state m'.state) × AllChange m'.published
unfolding run
run-told m [] t a = (t, a)
run-told m (r ∷ rs) t a = let s = apply-told m r t a in run-told (apply_result m r) rs s.0 s.1

-- The bus always knows the public state of a monitor: the last `HealthChanged` tells it (unknown if
-- there was none), and each publication is a change from the one before it.
pub published_tracks :
    (cfg : ServiceConfig) (rs : List ProbeResult)
    → let m = run (service_monitor cfg) rs in
      (told m.published ≡ to_health_state m.state) × AllChange m.published
unfolding service_monitor to_health_state
published_tracks cfg rs = run-told (service_monitor cfg) rs (ground arith) tt
