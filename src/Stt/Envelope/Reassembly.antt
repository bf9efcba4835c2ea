-- ===== src/Stt/Envelope/Reassembly.antt =====
-- src/stt/realtime_envelope.cpp: the whole life of a message among others.
use lclva.Prelude.{
  ℕ, ◌+◌, ◌<◌, ◌≤◌, ◌≡◌, inl, inr, refl, ap, ◌∙◌, List, [], ◌∷◌, Option, none, some, Bool, true,
  false, not, ◌||◌, if◌then◌else◌, leb, ◌==◌, length, set, All, arith, if_false,
}
use lclva.Stt.Base64.{base64_encode, base64_decode}
use lclva.Stt.Base64.RoundTrip.{IsByte, decode-encode}
use lclva.Stt.Envelope.{
  Text, Kind, Envelope, Pending, EnvelopeReassembler, same_text, put, is_empty, has_fragment,
  empty_fragments, joined, take_fragment, on_pending, on_fragment, on_partial, on_envelope, feed,
}
use lclva.Stt.Envelope.Counting.{tabulate, mark, count, count-mark, count-mark_le, count_all}
use lclva.Stt.Envelope.Fragments.{
  Arrival, seen, Held, fresh, fresh-Facts, fragment_waits, fragment_completes,
}

-- Two results that leave a message alone.
if-kept :
    (id : Text) (v : Option Pending) (b : Bool) (x y : Option Text × EnvelopeReassembler)
    → x.1.pending id ≡ v
    → y.1.pending id ≡ v
    → (if b then x else y).1.pending id ≡ v
if-kept id v true x y p q = p
if-kept id v false x y p q = q

module _ (id other_id : Text) (differs : same_text id other_id ≡ false) where
  put_other :
      (p : Option Pending) (r : EnvelopeReassembler) → (put other_id p r).pending id ≡ r.pending id
  put_other p r = if_false (same_text id other_id) p (r.pending id) differs

  take_fragment_other :
      (p : Pending) (idx : ℕ) (s : Text) (r : EnvelopeReassembler)
      → (take_fragment other_id p idx s r).1.pending id ≡ r.pending id
  unfolding take_fragment
  take_fragment_other p idx s r =
      let p' : Pending = record { fragments = set p.fragments idx s; received = p.received + 1 } in
      if-kept id (r.pending id) (has_fragment p.fragments idx) (none, put other_id (some p) r) _
        (put_other (some p) r)
        (if-kept id (r.pending id) (p'.received == length p'.fragments)
          (base64_decode (joined p'.fragments), put other_id none r)
          (none, put other_id (some p') r) (put_other none r) (put_other (some p') r))

  on_pending_other :
      (idx total : ℕ) (s : Text) (r : EnvelopeReassembler) (o : Option Pending)
      → (on_pending other_id idx total s r o).1.pending id ≡ r.pending id
  unfolding on_pending
  on_pending_other idx total s r none =
      take_fragment_other (record { fragments = empty_fragments total; received = 0 }) idx s r
  on_pending_other idx total s r (some p) =
      if-kept id (r.pending id) (not (length p.fragments == total)) (none, put other_id none r)
        (take_fragment other_id p idx s r) (put_other none r) (take_fragment_other p idx s r)

  on_partial_other :
      (idx total : Option ℕ) (s : Text) (r : EnvelopeReassembler)
      → (on_partial other_id idx total s r).1.pending id ≡ r.pending id
  unfolding on_partial on_fragment
  on_partial_other (some idx) (some total) s r =
      if-kept id (r.pending id) ((total == 0) || leb total idx) (none, r)
        (on_pending other_id idx total s r (r.pending other_id)) refl
        (on_pending_other idx total s r (r.pending other_id))
  on_partial_other (some idx) none s r = refl
  on_partial_other none total s r = refl

-- Another envelope: one that cannot be read, or of another id.
abbrev pub Foreign : Text → Option Envelope → Type 0
Foreign id none = Unit
Foreign id (some e) = same_text id e.id ≡ false

on_envelope_other :
    (id : Text) (k : Kind) (e : Envelope) (r : EnvelopeReassembler)
    → same_text id e.id ≡ false
    → (on_envelope k e r).1.pending id ≡ r.pending id
unfolding on_envelope
on_envelope_other id Kind.full_message e r d = refl
on_envelope_other id Kind.partial_message e r d =
    on_partial_other id e.id d e.fragment_index e.total_fragments e.payload r
on_envelope_other id Kind.other e r d = refl

feed-Foreign :
    (id : Text) (e : Option Envelope) (r : EnvelopeReassembler)
    → Foreign id e
    → (feed e r).1.pending id ≡ r.pending id
unfolding feed
feed-Foreign id none r d = refl
feed-Foreign id (some e) r d = on_envelope_other id e.kind e r d

module _ (id : Text) (n : ℕ) (f : ℕ → Text) where
  abbrev pub fragment : ℕ → Envelope
  fragment idx = record {
    id = id;
    kind = Kind.partial_message;
    payload = f idx;
    fragment_index = some idx;
    total_fragments = some n;
  }

  abbrev pub envelope : Arrival → Option Envelope
  envelope (inl idx) = some (fragment idx)
  envelope (inr e) = e

  -- The state behind some arrivals, and what the calls for the fragments gave.
  unfoldable pub after : List Arrival → EnvelopeReassembler → EnvelopeReassembler
  unfolding feed
  after [] r = r
  after (a ∷ more) r = after more (feed (envelope a) r).1

  unfoldable pub given : List Arrival → EnvelopeReassembler → List (Option Text)
  unfolding feed
  given [] r = []
  given (inl idx ∷ more) r = let x = feed (some (fragment idx)) r in x.0 ∷ given more x.1
  given (inr e ∷ more) r = given more (feed e r).1

  abbrev pub Fits : Arrival → Type 0
  Fits (inl idx) = idx < n
  Fits (inr e) = Foreign id e

  seen_le :
      (as_they_come : List Arrival) (g : ℕ → Bool)
      → All Fits as_they_come
      → count n g ≤ count n (seen as_they_come g)
  seen_le [] g a = omega arith
  seen_le (inl idx ∷ more) g (b, a) =
      omega (arith, count-mark_le n idx g b, seen_le more (mark idx g) a)
  seen_le (inr e ∷ more) g (b, a) = seen_le more g a

  module _ (filled : (i : ℕ) → is_empty (f i) ≡ false) where
    arrivals-Held :
        (more : List Arrival) (g : ℕ → Bool) (r : EnvelopeReassembler)
        → All Fits more
        → count n (seen more g) < n
        → Held id n f filled g r
        → All (λ o. o ≡ none) (given more r) × Held id n f filled (seen more g) (after more r)
    unfolding after given feed on_envelope on_partial
    arrivals-Held [] g r a c h = (tt, h)
    arrivals-Held (inl idx ∷ more) g r (b, a) c h =
        let w =
          fragment_waits id n f filled idx g r b (omega (arith, c, seen_le more (mark idx g) a))
            h in
        let rest = arrivals-Held more (mark idx g) (on_fragment id idx n (f idx) r).1 a c w.1 in
        ((w.0, rest.0), rest.1)
    arrivals-Held (inr e ∷ more) g r (b, a) c (p, q, k) =
        let same = feed-Foreign id e r b in
        arrivals-Held more g (feed e r).1 a c
          (p, elim q [ inl x ↦ inl (same ∙ x) | inr y ↦ inr (same ∙ y.0, y.1) ], k)

    -- A message of which nothing has come, cut in `n` fragments that are not empty. First come fragments of it,
    -- in any order and as often as they like, and any envelopes of other ids or that cannot be read; then the
    -- one fragment that was still missing. Up to there no call for a fragment gives anything; the last one
    -- gives the bytes whose encoding the fragments make up, and the id is free again.
    pub message_reassembled :
        (more : List Arrival) (last : ℕ) (r : EnvelopeReassembler) (s : List ℕ)
        → r.pending id ≡ none
        → All Fits more
        → last < n
        → seen more (λ i. false) last ≡ false
        → ((i : ℕ) → i < n → mark last (seen more (λ j. false)) i ≡ true)
        → joined (tabulate n f) ≡ base64_encode s
        → All IsByte s
        → let x = feed (some (fragment last)) (after more r) in
          All (λ o. o ≡ none) (given more r) × (x.0 ≡ some s) × (x.1.pending id ≡ none)
    unfolding feed on_envelope on_partial
    message_reassembled more last r s free a b missing whole cut bytes =
        let g = seen more (λ i. false) in
        let c = count_all n (mark last g) whole in
        let h =
          arrivals-Held more (λ i. false) r a (omega (arith, c, count-mark n last g b missing))
            (fresh id n f filled, inr (free, refl), fresh-Facts id n f filled) in
        let e = fragment_completes id n f filled last g (after more r) b missing c h.1 in
        (h.0, e.0 ∙ ap base64_decode cut ∙ (decode-encode s bytes).0, e.1)
