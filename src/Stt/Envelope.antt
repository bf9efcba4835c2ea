-- ===== src/Stt/Envelope.antt =====
-- src/stt/realtime_envelope.cpp: fragments of messages. The JSON reader is not modelled: `feed` gets the
-- envelope it reads, or none. The pending messages are a function of the ids.
mod Counting
pub mod Fragments
pub mod Reassembly
mod Tests
use lclva.Prelude.{
  ℕ, zero, suc, ◌+◌, List, [], ◌∷◌, ◌++◌, Option, none, some, Bool, true, false, not, ◌&&◌, ◌||◌,
  if◌then◌else◌, leb, ltb, ◌==◌, length, set, get_elem?,
}
use lclva.Stt.Base64.{base64_decode}

abbrev pub Text : Type 0
Text = List ℕ

-- "full_message", "partial_message" or anything else
pub data Kind : Type 0 where
  full_message partial_message other : Kind

pub record Envelope : Type 0 where
  pub id : Text
  pub kind : Kind
  pub payload : Text
  pub fragment_index : Option ℕ
  pub total_fragments : Option ℕ

pub record Pending : Type 0 where
  pub fragments : List Text
  pub received : ℕ

pub record EnvelopeReassembler : Type 0 where
  pub pending : Text → Option Pending

unfoldable pub envelope_reassembler : EnvelopeReassembler
envelope_reassembler = record { pending = λ _. none }

abbrev pub same_text : Text → Text → Bool
same_text [] [] = true
same_text (a ∷ s) (b ∷ t) = (a == b) && same_text s t
same_text _ _ = false

abbrev pub put : Text → Option Pending → EnvelopeReassembler → EnvelopeReassembler
put id p r = record { pending = λ x. if same_text x id then p else r.pending x }

abbrev pub is_empty : Text → Bool
is_empty [] = true
is_empty (c ∷ s) = false

abbrev pub has_fragment : List Text → ℕ → Bool
has_fragment fs idx = elim (get_elem? fs idx) [ none ↦ false | some f ↦ not (is_empty f) ]

abbrev pub empty_fragments : ℕ → List Text
empty_fragments zero = []
empty_fragments (suc n) = [] ∷ empty_fragments n

abbrev pub joined : List Text → Text
joined [] = []
joined (f ∷ fs) = f ++ joined fs

-- A fragment of a message that is there, with the number of fragments that it began with.
unfoldable pub take_fragment :
    Text → Pending → ℕ → Text → EnvelopeReassembler → Option Text × EnvelopeReassembler
unfolding base64_decode
take_fragment id p idx payload r =
    if has_fragment p.fragments idx
    then (none, put id (some p) r)
    else (let p' : Pending = record {
      fragments = set p.fragments idx payload;
      received = p.received + 1;
    } in
        if p'.received == length p'.fragments
        then (base64_decode (joined p'.fragments), put id none r)
        else (none, put id (some p') r))

-- `try_emplace`, and the check on the number of fragments.
unfoldable pub on_pending :
    Text → ℕ → ℕ → Text → EnvelopeReassembler → Option Pending → Option Text × EnvelopeReassembler
unfolding take_fragment
on_pending id idx total payload r none =
    take_fragment id (record { fragments = empty_fragments total; received = 0 }) idx payload r
on_pending id idx total payload r (some p) =
    if not (length p.fragments == total)
    then (none, put id none r)
    else take_fragment id p idx payload r

unfoldable pub on_fragment :
    Text → ℕ → ℕ → Text → EnvelopeReassembler → Option Text × EnvelopeReassembler
unfolding on_pending
on_fragment id idx total payload r =
    if (total == 0) || leb total idx
    then (none, r)
    else on_pending id idx total payload r (r.pending id)

unfoldable pub on_partial :
    Text → Option ℕ → Option ℕ → Text → EnvelopeReassembler → Option Text × EnvelopeReassembler
unfolding on_fragment
on_partial id (some idx) (some total) payload r = on_fragment id idx total payload r
on_partial id _ _ payload r = (none, r)

unfoldable pub on_envelope :
    Kind → Envelope → EnvelopeReassembler → Option Text × EnvelopeReassembler
unfolding base64_decode on_partial
on_envelope Kind.full_message e r = (base64_decode e.payload, r)
on_envelope Kind.partial_message e r =
    on_partial e.id e.fragment_index e.total_fragments e.payload r
on_envelope Kind.other e r = (none, r)

unfoldable pub feed : Option Envelope → EnvelopeReassembler → Option Text × EnvelopeReassembler
unfolding on_envelope
feed none r = (none, r)
feed (some e) r = on_envelope e.kind e r
