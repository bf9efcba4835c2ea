-- ===== src/Supervisor/Pipeline/Grace.antt =====
-- src/supervisor/supervisor.cpp: what the gate decides, told from the services' views and from the
-- time at which each of them was first seen unhealthy.
use text.Mathlib.Text.{◌==◌ as str_eq}
use lclva.Prelude.{
  ℕ, ◌-◌, ◌*◌, ◌≡◌, refl, ap, ap₂, ◌∙◌, List, [], ◌∷◌, Option, none, some, Bool, true, false, not,
  ◌&&◌, ◌||◌, arith, if◌then◌else◌, leb, All,
}
use lclva.Event.Types.{error_event}
use lclva.Supervisor.Pipeline.Markers.{
  gates, down, Distinct, scan_one-other, marker, Single, scan-markers, own_markers,
}
use lclva.Supervisor.Pipeline.{
  PipelineState, ServiceView, UnhealthyAt, find_since, Scan, scan_unhealthy, scan_one, scan,
  Supervisor, next_state, same_pipeline_state, is_failed, evaluate_pipeline,
}

-- How long a service is known to be down.
abbrev pub age : ℕ → Option ℕ → ℕ
age now none = 0
age now (some since) = now - since

abbrev pub any_gates : List ServiceView → Bool
any_gates [] = false
any_gates (v ∷ vs) = gates v || any_gates vs

-- Some service that gates is down, and was so for the grace.
abbrev pub any_overdue : (now grace : ℕ) → List UnhealthyAt → List ServiceView → Bool
any_overdue now grace us [] = false
any_overdue now grace us (v ∷ vs) =
    (gates v && (down v && leb grace (age now (find_since v.name us))))
    || any_overdue now grace us vs

scan_one-flags :
    (now grace : ℕ) (v : ServiceView) (s : Scan)
    → ((scan_one now grace v s).any_critical ≡ gates v || s.any_critical)
      × ((scan_one now grace v s).any_failed
          ≡ (gates v && (down v && leb grace (age now (find_since v.name s.unhealthy_since))))
            || s.any_failed)
unfolding scan_one scan_unhealthy
scan_one-flags now grace v s = (ground arith, ground arith)

-- The verdict over a list of services does not depend on the markers of other names.
any_overdue-markers :
    (now grace : ℕ) (v : ServiceView) (s : Scan) (vs : List ServiceView)
    → All (λ (w : ServiceView). str_eq v.name w.name ≡ false) vs
    → any_overdue now grace (scan_one now grace v s).unhealthy_since vs
      ≡ any_overdue now grace s.unhealthy_since vs
any_overdue-markers now grace v s [] a = refl
any_overdue-markers now grace v s (w ∷ ws) a =
    let ih = any_overdue-markers now grace v s ws a.1 in
    let m = scan_one-other now grace v w.name s a.0 in
    ap₂ (λ (o : Option ℕ) (r : Bool). (gates w && (down w && leb grace (age now o))) || r) m ih

or-move : (a b c : Bool) → a || (b || c) ≡ (b || a) || c
or-move true true c = refl
or-move true false c = refl
or-move false true c = refl
or-move false false c = refl

scan-flags :
    (now grace : ℕ) (vs : List ServiceView) (s : Scan)
    → Distinct vs
    → ((scan now grace vs s).any_critical ≡ any_gates vs || s.any_critical)
      × ((scan now grace vs s).any_failed
          ≡ any_overdue now grace s.unhealthy_since vs || s.any_failed)
unfolding scan
scan-flags now grace [] s d = (refl, refl)
scan-flags now grace (v ∷ vs) s d =
    let ih = scan-flags now grace vs (scan_one now grace v s) d.1 in
    let f = scan_one-flags now grace v s in
    let o = any_overdue-markers now grace v s vs d.0 in
    (
      ih.0
          ∙ ap (λ (b : Bool). any_gates vs || b) f.0
          ∙ or-move (any_gates vs) (gates v) s.any_critical,
      ih.1
          ∙ ap₂ (λ (a b : Bool). a || b) o f.1
          ∙ or-move (any_overdue now grace s.unhealthy_since vs)
              (gates v && (down v && leb grace (age now (find_since v.name s.unhealthy_since))))
              s.any_failed,
    )

-- The state that the services' views call for.
abbrev pub verdict : (now grace : ℕ) → List UnhealthyAt → List ServiceView → PipelineState
verdict now grace us vs =
    if any_gates vs
    then (if any_overdue now grace us vs then PipelineState.failed else PipelineState.ok)
    else PipelineState.no_configured_critical_services

-- The pipeline's change to failed.
becomes_failed :
    (p q : PipelineState)
    → not (same_pipeline_state p q) && is_failed q ≡ is_failed q && not (is_failed p)
becomes_failed p q = ground arith

next_state-flags :
    (s : Scan) (c f : Bool)
    → s.any_critical ≡ c || false
    → s.any_failed ≡ f || false
    → next_state s ≡ (
        if c
        then (if f then PipelineState.failed else PipelineState.ok)
        else PipelineState.no_configured_critical_services)
unfolding next_state
next_state-flags s c f p q = ground arith

-- With distinct service names and one marker at most for each name, an evaluation sets the pipeline's state
-- to the verdict: no critical service is configured, or one of them is down and has a marker at least the
-- grace old (of now, if it has none), or neither. The error event is published just when the state becomes
-- failed. Behind it a critical service that is down has the marker that it had, or one of now if it had
-- none, and one that is not down has no marker; the other services keep theirs.
pub evaluate_pipeline_lem :
    (now : ℕ) (vs : List ServiceView) (sup : Supervisor)
    → Distinct vs
    → Single sup.unhealthy_since
    → let sup' = evaluate_pipeline now vs sup in
      let next =
        verdict now (sup.pipeline_fail_grace_seconds * 1000000000) sup.unhealthy_since vs in
      (sup'.pipeline_state ≡ next)
      × (sup'.published ≡ (
          if is_failed next && not (is_failed sup.pipeline_state)
          then error_event "supervisor" "pipeline failed: critical service unhealthy past grace"
            ∷ sup.published
          else sup.published))
      × All
          (λ (v : ServiceView).
            find_since v.name sup'.unhealthy_since
            ≡ marker now v (find_since v.name sup.unhealthy_since))
          vs
      × Single sup'.unhealthy_since
unfolding evaluate_pipeline
evaluate_pipeline_lem now vs sup d u =
    let grace = sup.pipeline_fail_grace_seconds * 1000000000 in
    let s : Scan = record {
      any_critical = false;
      any_failed = false;
      unhealthy_since = sup.unhealthy_since;
    } in
    let f = scan-flags now grace vs s d in
    let e =
      next_state-flags (scan now grace vs s) (any_gates vs)
        (any_overdue now grace sup.unhealthy_since vs) f.0 f.1 in
    let es =
      error_event "supervisor" "pipeline failed: critical service unhealthy past grace"
      ∷ sup.published in
    let p = sup.pipeline_state in
    let m =
      scan-markers now grace vs s (λ (v : ServiceView). find_since v.name sup.unhealthy_since) d u
        (own_markers sup.unhealthy_since vs) in
    (
      e,
      ap
            (λ (q : PipelineState).
              if not (same_pipeline_state p q) && is_failed q then es else sup.published)
            e
          ∙ ap (λ (b : Bool). if b then es else sup.published)
              (becomes_failed p (verdict now grace sup.unhealthy_since vs)),
      m.0,
      m.1,
    )
