-- ===== src/Playback/Engine/Tests.antt =====
-- A queue with one short sentence, without a prefill target.
use lclva.Prelude.{ℕ, ◌≡◌, refl, List, [], ◌∷◌, Option, none, some, true, arith}
use lclva.Event.Types.{TurnId}
use lclva.Playback.Queue.{PlaybackQueue, dequeue_active}
use lclva.Playback.Engine.{
  PlaybackEngine, playback_engine, waits, render_into, render_loop, round, next_chunk, on_dequeued,
  copy, finish_chunk, maybe_close_barge_in_timer, silence,
}
use lclva.Playback.Engine.Fill.{Filled, render_into_fills}

abbrev sentence : PlaybackQueue
sentence = record {
  q = record { turn = 7; seq = 0; samples = 5 ∷ 6 ∷ 7 ∷ []; end_of_sentence = true } ∷ [];
  cap = 8;
  drops = 0;
  enqueued = 1;
  dequeued = 0;
}

abbrev turn_7 : ℕ → TurnId
turn_7 n = 7

abbrev eager : PlaybackEngine
eager = playback_engine 0 1000 sentence

abbrev out_of : Option PlaybackEngine → List ℕ
out_of none = []
out_of (some e) = e.out

played : out_of (render_into 9 0 5 turn_7 eager) ≡ 5 ∷ 6 ∷ 7 ∷ 0 ∷ 0 ∷ []
unfolding render_into render_loop round next_chunk on_dequeued copy finish_chunk waits
    maybe_close_barge_in_timer silence playback_engine dequeue_active
played = refl

render_into_fills_example : Filled 5 (render_into 4 0 5 turn_7 eager)
unfolding playback_engine
render_into_fills_example = render_into_fills 4 0 5 turn_7 eager (omega arith)
