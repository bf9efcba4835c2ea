-- ===== src/Llm/SseParser/Tests.antt =====
-- Two deltas and the sentinel.
use lclva.Prelude.{◌≡◌, refl, [], ◌∷◌, ◌++◌, true}
use lclva.Llm.SseParser.{
  Text, on_data, on_done, on_comment, sse_parser, k_done_sentinel, feed, drain, on_boundary,
  find_event_boundary, emit_event, lines, emit_lines, read_line, on_line, trim_leading_space,
  finish,
}
use lclva.Llm.SseParser.Chunks.{feed-append, feed_ends, Drained}
use lclva.Llm.SseParser.Frames.{frame, frames, feed-frames}

abbrev hi : Text
hi = 32 ∷ 104 ∷ 105 ∷ []

feed-frames_example :
    feed (frames (hi ∷ [] ∷ []) ++ (frame k_done_sentinel ++ hi)) sse_parser
    ≡ record { buffer = []; done_seen = true; calls = on_done ∷ on_data [] ∷ on_data hi ∷ [] }
feed-frames_example =
    feed-frames (hi ∷ [] ∷ []) hi (((refl, (refl, (refl, tt))), refl), ((tt, refl), tt))

feed-append_example : feed (frame hi ++ hi) sse_parser ≡ feed hi (feed (frame hi) sse_parser)
feed-append_example = feed-append (frame hi) hi sse_parser

feed_ends_example : Drained (feed (frame hi) sse_parser)
unfolding sse_parser
feed_ends_example = feed_ends (frame hi) sse_parser refl

-- ":hi", then a field without its blank line, which `finish` gives out.
comment_and_rest :
    (finish
      (feed (58 ∷ 104 ∷ 105 ∷ 10 ∷ 10 ∷ 100 ∷ 97 ∷ 116 ∷ 97 ∷ 58 ∷ 104 ∷ []) sse_parser)).calls
    ≡ on_data (104 ∷ []) ∷ on_comment (104 ∷ 105 ∷ []) ∷ []
unfolding finish feed sse_parser drain on_boundary find_event_boundary emit_event lines emit_lines
    read_line on_line trim_leading_space
comment_and_rest = refl
