-- ===== src/Event/BoundedQueue/Tests.antt =====
-- Queues of capacity two under each policy.
use lclva.Prelude.{ℕ, ◌≡◌, ◌≤◌, refl, [], ◌∷◌, false, arith, length}
use lclva.Event.BoundedQueue.{
  OverflowPolicy, drop_oldest, drop_newest, block, BoundedQueue, returns, waits, push, close,
}
use lclva.Event.BoundedQueue.Policies.{push_all, push_all-kept, close_drains, waits_lem}

abbrev empty_queue : OverflowPolicy → BoundedQueue ℕ
empty_queue p = record {
  capacity = 2;
  policy = p;
  q = [];
  closed = false;
  pushes = 0;
  pops = 0;
  drops = 0;
}

abbrev full_queue : OverflowPolicy → BoundedQueue ℕ
full_queue p = record (empty_queue p) { q = 1 ∷ 2 ∷ [] }

push_all-kept_example :
    ((push_all (empty_queue drop_oldest) (1 ∷ 2 ∷ 3 ∷ [])).q ≡ 2 ∷ 3 ∷ [])
    × (length (push_all (empty_queue drop_oldest) (1 ∷ 2 ∷ 3 ∷ [])).q ≤ 2)
push_all-kept_example =
    push_all-kept (empty_queue drop_oldest) (1 ∷ 2 ∷ 3 ∷ []) refl (omega arith) (omega arith)

push_newest : (push_all (empty_queue drop_newest) (1 ∷ 2 ∷ 3 ∷ [])).q ≡ 1 ∷ 2 ∷ []
unfolding push_all push
push_newest = refl

closed_queue_drained : push (close (full_queue block)) 7 ≡ returns (close (full_queue block)) false
closed_queue_drained = (close_drains (full_queue block) 7).0

full_queue-waits : push (full_queue block) 7 ≡ waits
full_queue-waits = (waits_lem (full_queue block) 7).0.1 (refl, omega arith, refl)
