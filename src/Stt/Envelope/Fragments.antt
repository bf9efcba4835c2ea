-- ===== src/Stt/Envelope/Fragments.antt =====
-- src/stt/realtime_envelope.cpp: a message comes together whatever the order of its fragments.
use lclva.Prelude.{
  ℕ, ◌+◌, ◌<◌, ◌≡◌, ◌⊎◌, inl, inr, refl, sym, ap, subst, ◌∙◌, List, [], ◌∷◌, Option, none, some,
  Bool, true, false, not, ◌||◌, if◌then◌else◌, leb, ◌==◌, length, set, length-set, at, at-set,
  arith, Bool-cases, if_true, if_false,
}
use lclva.Stt.Base64.{base64_decode}
use lclva.Stt.Envelope.{
  Text, Envelope, Pending, EnvelopeReassembler, same_text, put, is_empty, has_fragment,
  empty_fragments, joined, take_fragment, on_pending, on_fragment,
}
use lclva.Stt.Envelope.Counting.{
  same_text_refl, tabulate, list_is, has_fragment_lem, length-empty_fragments, at-empty_fragments,
  mark, count, count-none, count-mark, count-mark_again, count_full,
}

if_filled : (b : Bool) (s : Text) → is_empty s ≡ false → not (is_empty (if b then s else [])) ≡ b
if_filled true s e = ap not e
if_filled false s e = refl

-- What comes: a fragment of the message, by its index, or another envelope.
abbrev pub Arrival : Type 0
Arrival = ℕ ⊎ Option Envelope

abbrev pub seen : List Arrival → (ℕ → Bool) → ℕ → Bool
seen [] g = g
seen (inl idx ∷ more) g = seen more (mark idx g)
seen (inr e ∷ more) g = seen more g

module _ (id : Text) (n : ℕ) (f : ℕ → Text) (filled : (i : ℕ) → is_empty (f i) ≡ false) where
  -- What a pending message holds when the marked fragments have come.
  pub record Facts (g : ℕ → Bool) (p : Pending) : Type 0 where
    pub length_is : length p.fragments ≡ n
    pub fragments_are : (i : ℕ) → i < n → at [] p.fragments i ≡ (if g i then f i else [])
    pub received_is : p.received ≡ count n g

  abbrev pub fresh : Pending
  fresh = record { fragments = empty_fragments n; received = 0 }

  pub fresh-Facts : Facts (λ i. false) fresh
  fresh-Facts = record {
    length_is = length-empty_fragments n;
    fragments_are = λ i h. at-empty_fragments n i;
    received_is = sym (count-none n);
  }

  -- The message is pending so, or nothing of it has come.
  abbrev pub Held : (ℕ → Bool) → EnvelopeReassembler → Type 0
  Held g r =
      (p : Pending) × ((r.pending id ≡ some p) ⊎ ((r.pending id ≡ none) × (p ≡ fresh))) × Facts g p

  put_same : (p : Option Pending) (r : EnvelopeReassembler) → (put id p r).pending id ≡ p
  put_same p r = if_true (same_text id id) p (r.pending id) (same_text_refl id)

  on_pending-Held :
      (idx : ℕ) (s : Text) (g : ℕ → Bool) (r : EnvelopeReassembler) (h : Held g r)
      → on_pending id idx n s r (r.pending id) ≡ take_fragment id h.0 idx s r
  unfolding on_pending
  on_pending-Held idx s g r (p, inl q, k) =
      ap (on_pending id idx n s r) q
      ∙ if_false (not (length p.fragments == n)) _ (take_fragment id p idx s r)
          (ground (arith, k.length_is))
  on_pending-Held idx s g r (p, inr (q, e), k) =
      ap (on_pending id idx n s r) q ∙ ap (λ x. take_fragment id x idx s r) (sym e)

  on_fragment-Held :
      (idx : ℕ) (s : Text) (g : ℕ → Bool) (r : EnvelopeReassembler)
      → idx < n
      → (h : Held g r) → on_fragment id idx n s r ≡ take_fragment id h.0 idx s r
  unfolding on_fragment
  on_fragment-Held idx s g r b h =
      if_false ((n == 0) || leb n idx) (none, r) (on_pending id idx n s r (r.pending id))
        (ground (arith, b))
      ∙ on_pending-Held idx s g r h

  has-Facts :
      (g : ℕ → Bool) (p : Pending) (idx : ℕ)
      → idx < n
      → Facts g p
      → has_fragment p.fragments idx ≡ g idx
  has-Facts g p idx b k =
      has_fragment_lem p.fragments idx
      ∙ ap (λ x. not (is_empty x)) (k.fragments_are idx b)
      ∙ if_filled (g idx) (f idx) (filled idx)

  -- One more fragment.
  set-Facts :
      (g : ℕ → Bool) (p : Pending) (idx : ℕ)
      → idx < n
      → g idx ≡ false
      → Facts g p
      → Facts
          (mark idx g)
          (record { fragments = set p.fragments idx (f idx); received = p.received + 1 })
  set-Facts g p idx b e k = record {
    length_is = length-set p.fragments idx (f idx) ∙ k.length_is;
    fragments_are = λ i h.
        at-set [] p.fragments idx (f idx) i (omega (arith, k.length_is, b))
        ∙ grind (arith, k.fragments_are i h);
    received_is = omega (arith, k.received_is, count-mark n idx g b e);
  }

  again-Facts :
      (g : ℕ → Bool) (p : Pending) (idx : ℕ) → g idx ≡ true → Facts g p → Facts (mark idx g) p
  again-Facts g p idx e k = record {
    length_is = k.length_is;
    fragments_are = λ i h. grind (arith, k.fragments_are i h, e);
    received_is = k.received_is ∙ sym (count-mark_again n idx g e);
  }

  -- A fragment behind which the message is not complete yet.
  pub fragment_waits :
      (idx : ℕ) (g : ℕ → Bool) (r : EnvelopeReassembler)
      → idx < n
      → count n (mark idx g) < n
      → Held g r
      → let x = on_fragment id idx n (f idx) r in (x.0 ≡ none) × Held (mark idx g) x.1
  unfolding take_fragment
  fragment_waits idx g r b c (p, q, k) =
      let e = on_fragment-Held idx (f idx) g r b (p, q, k) in
      let has = has-Facts g p idx b k in
      elim (Bool-cases (g idx)) [
        | inl y ↦
            let w : take_fragment id p idx (f idx) r ≡ (none, put id (some p) r) =
              if_true (has_fragment p.fragments idx) _ _ (has ∙ y) in
            subst (λ (x : Option Text × EnvelopeReassembler). (x.0 ≡ none) × Held (mark idx g) x.1)
              (sym (e ∙ w)) (refl, (p, inl (put_same (some p) r), again-Facts g p idx y k))
        | inr y ↦
            let p' : Pending = record {
              fragments = set p.fragments idx (f idx);
              received = p.received + 1;
            } in
            let k' = set-Facts g p idx b y k in
            let w : take_fragment id p idx (f idx) r ≡ (none, put id (some p') r) =
              if_false (has_fragment p.fragments idx) _ _ (has ∙ y)
              ∙ if_false (p'.received == length p'.fragments) _ _
                  (ground (arith, k'.received_is, k'.length_is, c)) in
            subst (λ (x : Option Text × EnvelopeReassembler). (x.0 ≡ none) × Held (mark idx g) x.1)
              (sym (e ∙ w)) (refl, (p', inl (put_same (some p') r), k'))
      ]

  -- The fragment that completes the message.
  pub fragment_completes :
      (idx : ℕ) (g : ℕ → Bool) (r : EnvelopeReassembler)
      → idx < n
      → g idx ≡ false
      → count n (mark idx g) ≡ n
      → Held g r
      → let x = on_fragment id idx n (f idx) r in
        (x.0 ≡ base64_decode (joined (tabulate n f))) × (x.1.pending id ≡ none)
  unfolding take_fragment
  fragment_completes idx g r b y c (p, q, k) =
      let e = on_fragment-Held idx (f idx) g r b (p, q, k) in
      let has = has-Facts g p idx b k in
      let p' : Pending = record {
        fragments = set p.fragments idx (f idx);
        received = p.received + 1;
      } in
      let k' = set-Facts g p idx b y k in
      let all : p'.fragments ≡ tabulate n f = list_is n p'.fragments f k'.length_is (λ i h.
        k'.fragments_are i h ∙ if_true (mark idx g i) (f i) [] (count_full n (mark idx g) c i h)) in
      let w : take_fragment id p idx (f idx) r
          ≡ (base64_decode (joined p'.fragments), put id none r) =
        if_false (has_fragment p.fragments idx) _ _ (has ∙ y)
        ∙ if_true (p'.received == length p'.fragments) _ _
            (ground (arith, k'.received_is, k'.length_is, c)) in
      (
        ap (λ (x : Option Text × EnvelopeReassembler). x.0) (e ∙ w)
            ∙ ap (λ l. base64_decode (joined l)) all,
        ap (λ (x : Option Text × EnvelopeReassembler). x.1.pending id) (e ∙ w) ∙ put_same none r,
      )
