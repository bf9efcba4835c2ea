-- ===== src/Event/Bus/Delivery.antt =====
-- Who gets an event, and when a publisher waits.
use lclva.Prelude.{
  ◌+◌, ◌<◌, ◌≤◌, ◌≡◌, ◌⊎◌, ◌↔◌, inl, inr, refl, sym, ap, subst, ◌∙◌, List, [], ◌∷◌, ◌++◌, Bool,
  true, false, arith, u64, length, if◌then◌else◌, Bool-cases, if_false, ==_iff, All,
}
use lclva.Event.Types.{Event}
use lclva.Event.BoundedQueue.{block, BoundedQueue, Section, returns, waits, push, pop}
use lclva.Event.BoundedQueue.Policies.{after, kept, push-kept, waits_lem}
use lclva.Event.Bus.{
  index, Target, every, only, Subscription, EventBus, matches, offer, offer_all, publish_event,
  goes_on, worker_round,
}

-- The events that a target stands for.
abbrev pub Wants : Target → Event → Type 0
Wants every e = Unit
Wants (only i) e = index e ≡ i

matches_iff : (t : Target) (e : Event) → (matches t e ≡ true) ↔ Wants t e
unfolding matches
matches_iff every e = (λ h. tt, λ w. refl)
matches_iff (only i) e = ==_iff (index e) i

-- A subscription whose queue holds a publisher up.
abbrev pub Blocks : Event → Subscription → Type 0
Blocks e s =
    Wants s.target e
    × (s.queue.closed ≡ false)
    × (s.queue.capacity ≤ length s.queue.q)
    × (s.queue.policy ≡ block)

-- A queue with room for something, within its capacity.
abbrev pub IsSound : Subscription → Type 0
IsSound s = (0 < s.queue.capacity) × (length s.queue.q ≤ s.queue.capacity)

-- What an event has done to a subscription: nothing if it is not wanted or the queue is closed; else it is
-- behind the queued events, of which the policy keeps as many as fit, and no handler has run.
abbrev pub Delivered : Event → Subscription → Subscription → Type 0
Delivered e s t =
    (¬ Wants s.target e × (t ≡ s))
    ⊎ ((Wants s.target e × (s.queue.closed ≡ true) × (t ≡ s))
        ⊎ (Wants s.target e
            × (s.queue.closed ≡ false)
            × (t.queue.q ≡ kept s.queue.policy s.queue.capacity (s.queue.q ++ e ∷ []))
            × (t.handled ≡ s.handled)
            × (t.target ≡ s.target)
            × (t.running ≡ s.running)))

-- The subscriptions in their order, up to the first one that holds the publisher up, if any: those behind
-- that one are as they were.
abbrev pub Served : Event → List Subscription → List Subscription → Bool → Type 0
Served e [] [] waiting = waiting ≡ false
Served e (s ∷ ss) (t ∷ ts) waiting =
    (¬ Blocks e s × Delivered e s t × Served e ss ts waiting)
    ⊎ (Blocks e s × (t ≡ s) × (ts ≡ ss) × (waiting ≡ true))
Served e _ _ waiting = ⊥

closed_away :
    (b : BoundedQueue Event) (e : Event) (r : Section Event Bool)
    → b.closed ≡ true
    → push b e ≡ r
    → after b r ≡ b
unfolding push
closed_away b e r c p =
    let away : push b e ≡ returns b false = ground (arith, c) in ap (after b) (sym p ∙ away)

offer_cases :
    (e : Event) (s : Subscription)
    → IsSound s
    → (Blocks e s × (offer e s ≡ (s, true)))
      ⊎ ((t : Subscription) × (offer e s ≡ (t, false)) × Delivered e s t × ¬ Blocks e s)
unfolding offer
offer_cases e s (pos, fits) = elim (Bool-cases (matches s.target e)) [
  | inl m ↦ go (push s.queue e) refl m
  | inr n ↦
      let unwanted : ¬ Wants s.target e = λ w. cc (n, (matches_iff s.target e).1 w) in
      inr (s, ground (arith, n), inl (unwanted, refl), λ b. unwanted b.0)
]
  where
    go :
        (r : Section Event Bool)
        → push s.queue e ≡ r
        → matches s.target e ≡ true
        → (Blocks e s × (offer e s ≡ (s, true)))
          ⊎ ((t : Subscription) × (offer e s ≡ (t, false)) × Delivered e s t × ¬ Blocks e s)
    go waits q m =
        let w = (waits_lem s.queue e).0.0 q in
        inl (((matches_iff s.target e).0 m, w.0, w.1, w.2), ground (arith, q, m))
    go (returns b a) q m =
        let w = (matches_iff s.target e).0 m in
        let free : ¬ Blocks e s = λ h. cc (q, (waits_lem s.queue e).0.1 (h.1, h.2, h.3)) in
        elim (Bool-cases s.queue.closed) [
          | inl c ↦ inr (
            record s { queue = b },
            ground (arith, q, m),
            inr (
                inl (
                  w,
                  c,
                  ap (λ (x : BoundedQueue Event). record s { queue = x })
                      (closed_away s.queue e (returns b a) c q),
                )),
            free,
          )
          | inr o ↦ inr (
            record s { queue = b },
            ground (arith, q, m),
            inr (
                inr (
                  w,
                  o,
                  ap (λ (r : Section Event Bool). (after s.queue r).q) (sym q)
                      ∙ push-kept s.queue.policy s.queue e refl o pos fits,
                  refl,
                  refl,
                  refl,
                )),
            free,
          )
        ]

-- One round of the loop, by the result of its push and that of the rest.
abbrev Round :
    Event
    → Subscription
    → List Subscription
    → List Subscription × Bool
    → Subscription × Bool
    → Type 0
Round e s ss (ts, later) (t, waiting) =
    let stop : List Subscription × Bool = (t ∷ ss, true) in
    let r = if waiting then stop else (t ∷ ts, later) in Served e (s ∷ ss) r.0 r.1

-- The loop serves the subscriptions.
offer_all-Served :
    (e : Event) (ss : List Subscription)
    → All IsSound ss
    → Served e ss (offer_all e ss).0 (offer_all e ss).1
unfolding offer_all
offer_all-Served e [] h = refl
offer_all-Served e (s ∷ ss) h = elim (offer_cases e s h.0) [
  | inl (b, o) ↦ subst (Round e s ss (offer_all e ss)) (sym o) (inr (b, refl, refl, refl))
  | inr (t, o, d, nb) ↦
      subst (Round e s ss (offer_all e ss)) (sym o) (inl (nb, d, offer_all-Served e ss h.1))
]

-- Publishing on a bus that has not been shut down, where every queue has room for something and is within
-- its capacity. The event is counted. The subscriptions are served in their order: one that does not want
-- the event, or whose queue is closed, is left as it is; in any other the event is put behind the
-- queued ones, of which with it those are left that the policy keeps. The publisher waits at the first subscription that
-- wants the event and has the blocking policy and an open, full queue, where there is one, and then nothing
-- has reached that one and those behind it.
pub publish_event_lem :
    (bus : EventBus) (e : Event)
    → bus.shutting_down ≡ false
    → All IsSound bus.subs
    → let (bus', waiting) = publish_event bus e in
      Served e bus.subs bus'.subs waiting
      × (bus'.published ≡ u64 (bus.published + 1))
      × (bus'.shutting_down ≡ false)
unfolding publish_event
publish_event_lem bus e h sound =
    let (ss, waiting) = offer_all e bus.subs in
    let told : publish_event bus e
        ≡ (record bus { subs = ss; published = u64 (bus.published + 1) }, waiting) =
      if_false bus.shutting_down (bus, false) _ h in
    subst
      (λ (r : EventBus × Bool).
        Served e bus.subs r.0.subs r.1
        × (r.0.published ≡ u64 (bus.published + 1))
        × (r.0.shutting_down ≡ false))
      (sym told) (offer_all-Served e bus.subs sound, refl, h)

-- While it runs, a worker handles the queued events one at a time in their order.
pub worker_round_lem :
    (s : Subscription) (e : Event) (es : List Event)
    → s.running ≡ true
    → s.queue.q ≡ e ∷ es
    → (s' : Subscription) × (worker_round s ≡ goes_on s')
      × (s'.queue.q ≡ es)
      × (s'.handled ≡ e ∷ s.handled)
unfolding worker_round pop
worker_round_lem s e es h q = (
  record s {
    queue = record (s.queue) { q = es; pops = u64 (s.queue.pops + 1) };
    handled = e ∷ s.handled;
  },
  ground arith,
  refl,
  refl,
)
