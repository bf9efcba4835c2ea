-- ===== src/Dialogue/SentenceSplitter/Tests.antt =====
-- Two sentences with an abbreviation and a decimal, in tokens cut anywhere.
use lclva.Prelude.{◌≡◌, refl, List, [], ◌∷◌, true}
use lclva.Dialogue.SentenceSplitter.{
  Text, bytes, SentenceSplitter, sentence_splitter, push, flush, push_char, append_char, decide,
  on_pending, on_char, on_terminator, resolve_pending, defer, flush_buffer, emit, trim_leading,
  back_onto, last_word_is_abbreviation, buffer_ends_with_list_marker, buffer_ends_with_decimal,
  buffer_ends_with_ellipsis,
}
use lclva.Dialogue.SentenceSplitter.Kept.{visible, joined, push_all, flush_keeps, push_all_chunks}
use lclva.Dialogue.SentenceSplitter.Bounds.{IsValid, push_bounds}

abbrev tokens : List Text
tokens = bytes "Dr. Who pays 3." ∷ bytes "50 today! Th" ∷ bytes "anks a lot" ∷ []

abbrev others : List Text
others = bytes "Dr. Who pays 3.50 " ∷ bytes "today! Thanks a lot" ∷ []

abbrev fresh : SentenceSplitter
fresh = sentence_splitter true 600

sentences :
    (flush (push_all tokens fresh)).out
    ≡ bytes "Dr. Who pays 3.50 today!" ∷ bytes "Thanks a lot" ∷ []
unfolding push_all push flush sentence_splitter push_char append_char decide on_pending on_char
    on_terminator resolve_pending defer flush_buffer emit trim_leading back_onto
    last_word_is_abbreviation buffer_ends_with_list_marker buffer_ends_with_decimal
    buffer_ends_with_ellipsis
sentences = refl

-- A word of up to three letters in front of a full stop counts as a list marker: no sentence ends there.
short_word :
    (flush (push (bytes "That is it. Good night then. Yes") fresh)).out
    ≡ bytes "That is it. Good night then." ∷ bytes "Yes" ∷ []
unfolding push_all push flush sentence_splitter push_char append_char decide on_pending on_char
    on_terminator resolve_pending defer flush_buffer emit trim_leading back_onto
    last_word_is_abbreviation buffer_ends_with_list_marker buffer_ends_with_decimal
    buffer_ends_with_ellipsis
short_word = refl

flush_keeps_example :
    let s = flush (push_all tokens fresh) in
    (visible (joined s.out) ≡ bytes "Dr.Whopays3.50today!Thanksalot") × (s.buf ≡ [])
flush_keeps_example = flush_keeps true 600 tokens

two_cuts : push_all tokens fresh ≡ push_all others fresh
two_cuts = push_all_chunks tokens others fresh refl

hello_in_bounds :
    IsValid (push (bytes "Hello there! ") fresh)
    × IsValid (flush (push (bytes "Hello there! ") fresh))
unfolding sentence_splitter
hello_in_bounds = push_bounds (bytes "Hello there! ") fresh tt
