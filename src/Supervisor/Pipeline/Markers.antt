-- ===== src/Supervisor/Pipeline/Markers.antt =====
-- src/supervisor/supervisor.cpp: the times from which on services are down, as an evaluation keeps them.
use Prim.Native.String.{String}
use text.Mathlib.Text.{◌==◌ as str_eq}
use text.Mathlib.TextEquality.{eq_iff as str_eq_iff}
use lclva.Prelude.{
  ℕ, ◌≡◌, refl, sym, subst, ap, ◌∙◌, List, [], ◌∷◌, ◌++◌, Option, none, some, Bool, false, not,
  ◌&&◌, arith, if◌then◌else◌, All, Bool-cases, inl, inr, if_true, if_false,
}
use lclva.Supervisor.Service.{ServiceState, same_service_state}
use lclva.Supervisor.Pipeline.{
  ServiceView, UnhealthyAt, find_since, erase_since, Scan, scan_unhealthy, scan_one, scan,
}

-- A service that gates the pipeline, and one that is down.
abbrev pub gates : ServiceView → Bool
gates v = v.fail_pipeline_if_down && not (same_service_state v.state ServiceState.not_configured)

abbrev pub down : ServiceView → Bool
down v = same_service_state v.state ServiceState.unhealthy

-- No two services have the same name.
abbrev pub Distinct : List ServiceView → Type 0
Distinct [] = Unit
Distinct (v ∷ vs) = All (λ (w : ServiceView). str_eq v.name w.name ≡ false) vs × Distinct vs

str_ne_sym : (m n : String) → str_eq m n ≡ false → str_eq n m ≡ false
str_ne_sym m n e = elim (Bool-cases (str_eq n m)) [
  | inl h ↦ absurd (ground (arith, e, (str_eq_iff m n).1 (sym ((str_eq_iff n m).0 h))))
  | inr h ↦ h
]

find_since-append :
    (n m : String) (now : ℕ) (us : List UnhealthyAt)
    → str_eq m n ≡ false
    → find_since n (us ++ record { name = m; since = now } ∷ []) ≡ find_since n us
unfolding find_since
find_since-append n m now [] ne = ground arith
find_since-append n m now (u ∷ us) ne =
    ap (λ (o : Option ℕ). if str_eq u.name n then some u.since else o)
      (find_since-append n m now us ne)

find_since-erase :
    (n m : String) (us : List UnhealthyAt)
    → str_eq m n ≡ false
    → find_since n (erase_since m us) ≡ find_since n us
unfolding find_since erase_since
find_since-erase n m [] ne = refl
find_since-erase n m (u ∷ us) ne = elim (Bool-cases (str_eq u.name m)) [
  | inl e ↦
      let q = (str_eq_iff u.name m).0 e in
      let f = ap (λ (x : String). str_eq x n) q ∙ ne in
      ap (find_since n) (if_true (str_eq u.name m) us (u ∷ erase_since m us) e)
      ∙ sym (if_false (str_eq u.name n) (some u.since) (find_since n us) f)
  | inr e ↦
      ap (find_since n) (if_false (str_eq u.name m) us (u ∷ erase_since m us) e)
      ∙ ap (λ (o : Option ℕ). if str_eq u.name n then some u.since else o)
          (find_since-erase n m us ne)
]

-- One service leaves the markers of the others alone.
pub scan_one-other :
    (now grace : ℕ) (v : ServiceView) (n : String) (s : Scan)
    → str_eq v.name n ≡ false
    → find_since n (scan_one now grace v s).unhealthy_since ≡ find_since n s.unhealthy_since
unfolding scan_one scan_unhealthy
scan_one-other now grace v n s ne =
    let a = find_since-append n v.name now s.unhealthy_since ne in
    let b = find_since-erase n v.name s.unhealthy_since ne in ground (arith, a, b)

-- The time from which on a service counts as down, behind an evaluation.
abbrev pub marker : ℕ → ServiceView → Option ℕ → Option ℕ
marker now v o =
    if gates v
    then (if down v then elim o [ none ↦ some now | some since ↦ some since ] else none)
    else o

-- At most one marker for each name.
abbrev pub Single : List UnhealthyAt → Type 0
Single [] = Unit
Single (u ∷ us) = (find_since u.name us ≡ none) × Single us

find_since-end :
    (n : String) (now : ℕ) (us : List UnhealthyAt)
    → find_since n us ≡ none
    → find_since n (us ++ record { name = n; since = now } ∷ []) ≡ some now
unfolding find_since
find_since-end n now [] e = if_true (str_eq n n) (some now) none ((str_eq_iff n n).1 refl)
find_since-end n now (u ∷ us) e = elim (Bool-cases (str_eq u.name n)) [
  | inl h ↦ absurd (ground (arith, e, h))
  | inr h ↦
      if_false (str_eq u.name n) (some u.since) _ h ∙ find_since-end n now us (ground (arith, e, h))
]

find_since-erased :
    (n : String) (us : List UnhealthyAt) → Single us → find_since n (erase_since n us) ≡ none
unfolding find_since erase_since
find_since-erased n [] d = refl
find_since-erased n (u ∷ us) d = elim (Bool-cases (str_eq u.name n)) [
  | inl h ↦
      ap (find_since n) (if_true (str_eq u.name n) us (u ∷ erase_since n us) h)
      ∙ ap (λ x. find_since x us) (sym ((str_eq_iff u.name n).0 h))
      ∙ d.0
  | inr h ↦
      ap (find_since n) (if_false (str_eq u.name n) us (u ∷ erase_since n us) h)
      ∙ if_false (str_eq u.name n) (some u.since) _ h
      ∙ find_since-erased n us d.1
]

none_behind :
    (n : String) (u : UnhealthyAt) (us : List UnhealthyAt)
    → find_since n (u ∷ us) ≡ none
    → find_since n us ≡ none
unfolding find_since
none_behind n u us e = ground (arith, e)

append-Single :
    (n : String) (now : ℕ) (us : List UnhealthyAt)
    → find_since n us ≡ none
    → Single us
    → Single (us ++ record { name = n; since = now } ∷ [])
unfolding find_since
append-Single n now [] e d = (refl, tt)
append-Single n now (u ∷ us) e d = elim (Bool-cases (str_eq n u.name)) [
  | inl h ↦ absurd (ground (arith, e, (str_eq_iff u.name n).1 (sym ((str_eq_iff n u.name).0 h))))
  | inr h ↦
      (find_since-append u.name n now us h ∙ d.0, append-Single n now us (none_behind n u us e) d.1)
]

erase-none :
    (n m : String) (us : List UnhealthyAt)
    → find_since m us ≡ none
    → find_since m (erase_since n us) ≡ none
unfolding find_since erase_since
erase-none n m [] e = refl
erase-none n m (u ∷ us) e =
    let ih : find_since m us ≡ none → find_since m (erase_since n us) ≡ none = erase-none n m us in
    ground (arith, e, ih)

erase-Single : (n : String) (us : List UnhealthyAt) → Single us → Single (erase_since n us)
unfolding erase_since
erase-Single n [] d = tt
erase-Single n (u ∷ us) d = elim (Bool-cases (str_eq u.name n)) [
  | inl h ↦ subst Single (sym (if_true (str_eq u.name n) us (u ∷ erase_since n us) h)) d.1
  | inr h ↦
      subst Single (sym (if_false (str_eq u.name n) us (u ∷ erase_since n us) h))
        (erase-none n u.name us d.0, erase-Single n us d.1)
]

scan_one-marker :
    (now grace : ℕ) (v : ServiceView) (s : Scan)
    → Single s.unhealthy_since
    → (find_since v.name (scan_one now grace v s).unhealthy_since
        ≡ marker now v (find_since v.name s.unhealthy_since))
      × Single (scan_one now grace v s).unhealthy_since
unfolding scan_one scan_unhealthy
scan_one-marker now grace v s d =
    let us = s.unhealthy_since in
    let ended = find_since-end v.name now us in
    let gone = find_since-erased v.name us d in
    let longer : find_since v.name us ≡ none
        → Single (us ++ record { name = v.name; since = now } ∷ []) =
      λ e. append-Single v.name now us e d in
    let shorter = erase-Single v.name us d in (ground arith, ground arith)

scan-other :
    (now grace : ℕ) (vs : List ServiceView) (n : String) (s : Scan)
    → All (λ (w : ServiceView). str_eq n w.name ≡ false) vs
    → find_since n (scan now grace vs s).unhealthy_since ≡ find_since n s.unhealthy_since
unfolding scan
scan-other now grace [] n s a = refl
scan-other now grace (v ∷ vs) n s a =
    scan-other now grace vs n (scan_one now grace v s) a.1
    ∙ scan_one-other now grace v n s (str_ne_sym n v.name a.0)

-- What one service does not touch.
still :
    (now grace : ℕ) (v : ServiceView) (s : Scan) (f : ServiceView → Option ℕ)
    (ws : List ServiceView)
    → All (λ (w : ServiceView). str_eq v.name w.name ≡ false) ws
    → All (λ (w : ServiceView). find_since w.name s.unhealthy_since ≡ f w) ws
    → All (λ (w : ServiceView). find_since w.name (scan_one now grace v s).unhealthy_since ≡ f w) ws
still now grace v s f [] a h = tt
still now grace v s f (w ∷ ws) a h =
    (scan_one-other now grace v w.name s a.0 ∙ h.0, still now grace v s f ws a.1 h.1)

pub scan-markers :
    (now grace : ℕ) (vs : List ServiceView) (s : Scan) (f : ServiceView → Option ℕ)
    → Distinct vs
    → Single s.unhealthy_since
    → All (λ (v : ServiceView). find_since v.name s.unhealthy_since ≡ f v) vs
    → All
        (λ (v : ServiceView).
          find_since v.name (scan now grace vs s).unhealthy_since ≡ marker now v (f v))
        vs
      × Single (scan now grace vs s).unhealthy_since
unfolding scan
scan-markers now grace [] s f d u h = (tt, u)
scan-markers now grace (v ∷ vs) s f d u h =
    let one = scan_one-marker now grace v s u in
    let rest =
      scan-markers now grace vs (scan_one now grace v s) f d.1 one.1
        (still now grace v s f vs d.0 h.1) in
    (
      (
        scan-other now grace vs v.name (scan_one now grace v s) d.0 ∙ one.0 ∙ ap (marker now v) h.0,
        rest.0,
      ),
      rest.1,
    )

pub own_markers :
    (us : List UnhealthyAt) (vs : List ServiceView)
    → All (λ (v : ServiceView). find_since v.name us ≡ find_since v.name us) vs
own_markers us [] = tt
own_markers us (v ∷ vs) = (refl, own_markers us vs)
