-- ===== src/Audio/SpscRing/Tests.antt =====
-- A ring of four slots, so of three items.
use lclva.Prelude.{
  ℕ, ◌^◌, ◌<◌, ◌≡◌, refl, List, [], ◌∷◌, ◌++◌, none, some, true, false, arith, length,
}
use mathlib.Core.List.{map}
use lclva.Audio.SpscRing.{Ring, next, push, pop, size, empty, capacity}
use lclva.Audio.SpscRing.Sequential.{
  Holds, enqueue, push_refines, RingOp, put, take, accepted, taken, run, run_queue, run_refines,
  size_lem,
}
use lclva.Audio.SpscRing.Concurrent.{
  Producer, Consumer, Reach, here, next_step, push_check, push_write, push_publish, pop_check,
  pop_move, start, Reach-in_order,
}

-- 8, then 9, round the end of the storage.
abbrev wrapped : Ring ℕ
wrapped = record { tail = 1; head = 3; slots = 9 ∷ 0 ∷ 0 ∷ 8 ∷ [] }

abbrev script : List (RingOp ℕ)
script = put 1 ∷ put 2 ∷ take ∷ take ∷ take ∷ take ∷ []

abbrev held : List ℕ
held = 8 ∷ 9 ∷ []

wrapped-Holds : Holds 2 wrapped held
wrapped-Holds = record { valid = omega arith; items = refl }

run-wrapped :
    run 2 wrapped script
    ≡ accepted true
      ∷ accepted false
      ∷ taken (some 8)
      ∷ taken (some 9)
      ∷ taken (some 1)
      ∷ taken none
      ∷ []
unfolding run push pop next
run-wrapped = refl

run_refines_example : run 2 wrapped script ≡ run_queue 2 held script
run_refines_example = run_refines 2 script wrapped held wrapped-Holds

push_refines_example :
    Holds 2 (push 2 wrapped 5).0 (enqueue (capacity 2) held 5).0
    × ((push 2 wrapped 5).1 ≡ (enqueue (capacity 2) held 5).1)
push_refines_example = push_refines 2 wrapped held 5 wrapped-Holds

size_at_three : (size 2 wrapped ≡ 2) × (empty 2 wrapped ≡ false)
size_at_three = size_lem 2 wrapped held (2 ^ 62) refl wrapped-Holds

abbrev zeros : List ℕ
zeros = 0 ∷ 0 ∷ 0 ∷ 0 ∷ []

-- The producer publishes 7 and is cut off behind its second write, while the consumer has moved 7.
cut_off : Reach 2 (start 2 zeros) (record {
  ring = record { tail = 1; head = 0; slots = 7 ∷ 6 ∷ 0 ∷ 0 ∷ [] };
  producer = Producer.written 6;
  consumer = Consumer.moved 7;
  pushed = 7 ∷ [];
  popped = [];
})
unfolding start next
cut_off =
    next_step
      (next_step
        (next_step
          (next_step
            (next_step
              (next_step (next_step here (push_check _ 7 refl (omega arith))) (push_write _ 7 refl))
              (push_publish _ 7 refl))
            (pop_check _ refl (omega arith)))
          (push_check _ 6 refl (omega arith)))
        (pop_move _ 7 refl refl))
      (push_write _ 6 refl)

Reach-in_order_example :
    (rest : List ℕ) × (7 ∷ [] ≡ [] ++ rest) × (some 7 ∷ [] ≡ map some rest) × (length rest < 4)
Reach-in_order_example = Reach-in_order 2 zeros refl cut_off
