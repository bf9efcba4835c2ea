-- ===== src/Stt/Envelope/Tests.antt =====
-- A message in three fragments, and what goes wrong with an empty one.
use lclva.Prelude.{ℕ, zero, suc, ◌≡◌, refl, List, [], ◌∷◌, inl, inr, none, some, false, arith, All}
use lclva.Dialogue.SentenceSplitter.{bytes}
use lclva.Stt.Base64.{base64_encode}
use lclva.Stt.Envelope.{Text, Kind, Envelope, envelope_reassembler, feed, is_empty}
use lclva.Stt.Envelope.Fragments.{Arrival}
use lclva.Stt.Envelope.Reassembly.{fragment, after, given, message_reassembled}

abbrev pieces : ℕ → Text
pieces zero = bytes "SG"
pieces (suc zero) = bytes "Vsb"
pieces _ = bytes "G8="

abbrev me : Text
me = bytes "e1"

-- The last fragment first, an envelope that cannot be read, the first one twice.
abbrev mixed : List Arrival
mixed = inl 2 ∷ inr none ∷ inl 0 ∷ inl 0 ∷ []

pieces_filled : (i : ℕ) → is_empty (pieces i) ≡ false
pieces_filled zero = refl
pieces_filled (suc zero) = refl
pieces_filled (suc (suc i)) = refl

message_reassembled_example :
    let x = feed (some (fragment me 3 pieces 1)) (after me 3 pieces mixed envelope_reassembler) in
    All (λ o. o ≡ none) (given me 3 pieces mixed envelope_reassembler)
    × (x.0 ≡ some (bytes "Hello"))
    × (x.1.pending me ≡ none)
unfolding envelope_reassembler base64_encode
message_reassembled_example =
    message_reassembled me 3 pieces pieces_filled mixed 1 envelope_reassembler (bytes "Hello") refl
      (omega arith, (tt, (omega arith, (omega arith, tt)))) (omega arith) refl
      (λ i h. ground (arith, h)) refl
      (omega arith, (omega arith, (omega arith, (omega arith, (omega arith, tt)))))

-- An empty fragment that comes twice is counted twice: the message ends without its other fragment.
empty_counted_twice :
    let e : Envelope = record {
      id = me;
      kind = Kind.partial_message;
      payload = [];
      fragment_index = some 0;
      total_fragments = some 2;
    } in
    (feed (some e) (feed (some e) envelope_reassembler).1).0 ≡ some []
unfolding feed envelope_reassembler
empty_counted_twice = refl
