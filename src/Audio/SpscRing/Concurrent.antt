-- ===== src/Audio/SpscRing/Concurrent.antt =====
-- The producer's and the consumer's thread, cut at each atomic access of an index and at the access
-- of the slot between them: any interleaving of these steps.
use mathlib.Core.List.{map, map-append}
use lclva.Prelude.{
  ℕ, ◌^◌, ◌<◌, ◌≡◌, ◌≢◌, refl, sym, subst, ap, ◌∙◌, List, [], ◌∷◌, ◌++◌, append_assoc, Option, some,
  arith, length, get_elem?, set, length-set, get_elem?-set_ne, get_elem?-set_self, pow-pos,
}
use lclva.Audio.SpscRing.{Ring, next}
use lclva.Audio.SpscRing.Sequential.{length-Holds, count-lt}
use lclva.Audio.SpscRing.Window.{
  IsValid, next_wrap, contents, contents-take, next_in, contents-publish, contents-write,
}

-- Where `push` stands: before it, behind its test, and behind the write of its slot.
pub data Producer (A : Type 0) : Type 0 where
  resting : Producer A
  checked : A → Producer A
  written : A → Producer A

-- Where `pop` stands: before it, behind its test, and with the item moved out.
pub data Consumer (A : Type 0) : Type 0 where
  resting : Consumer A
  checked : Consumer A
  moved : A → Consumer A

-- The ring that both threads share, where each stands, and what has been pushed and popped so far.
pub record Shared (A : Type 0) : Type 0 where
  pub ring : Ring A
  pub producer : Producer A
  pub consumer : Consumer A
  pub pushed : List A
  pub popped : List A

module _ {A : Type 0} (k : ℕ) where
  pub data Step : Shared A → Shared A → Type 0 where
    -- `head_.load(acquire)` finds room.
    push_check :
        (s : Shared A) (v : A)
        → s.producer ≡ Producer.resting
        → next k s.ring.tail ≢ s.ring.head
        → Step s (record s { producer = Producer.checked v })
    -- `slots_[tail] = std::move(value)`
    push_write :
        (s : Shared A) (v : A)
        → s.producer ≡ Producer.checked v
        → Step s (record s {
          ring = record s.ring { slots = set s.ring.slots s.ring.tail v };
          producer = Producer.written v;
        })
    -- `tail_.store(next_tail, release)`
    push_publish :
        (s : Shared A) (v : A)
        → s.producer ≡ Producer.written v
        → Step s (record s {
          ring = record s.ring { tail = next k s.ring.tail };
          producer = Producer.resting;
          pushed = s.pushed ++ v ∷ [];
        })
    -- `tail_.load(acquire)` finds an item.
    pop_check :
        (s : Shared A)
        → s.consumer ≡ Consumer.resting
        → s.ring.head ≢ s.ring.tail
        → Step s (record s { consumer = Consumer.checked })
    -- `T out = std::move(slots_[head])`
    pop_move :
        (s : Shared A) (v : A)
        → s.consumer ≡ Consumer.checked
        → get_elem? s.ring.slots s.ring.head ≡ some v
        → Step s (record s { consumer = Consumer.moved v })
    -- `head_.store((head + 1) & kMask, release)`
    pop_release :
        (s : Shared A) (v : A)
        → s.consumer ≡ Consumer.moved v
        → Step s (record s {
          ring = record s.ring { head = next k s.ring.head };
          consumer = Consumer.resting;
          popped = s.popped ++ v ∷ [];
        })

  pub data Reach (s : Shared A) : Shared A → Type 0 where
    here : Reach s s
    next_step : {t u : Shared A} → Reach s t → Step t u → Reach s u

  -- What a thread has seen stays true while the other one runs.
  abbrev ProducerSees : Ring A → Producer A → Type 0
  ProducerSees r Producer.resting = Unit
  ProducerSees r (Producer.checked v) = next k r.tail ≢ r.head
  ProducerSees r (Producer.written v) =
      (next k r.tail ≢ r.head) × (get_elem? r.slots r.tail ≡ some v)

  abbrev ConsumerSees : Ring A → Consumer A → Type 0
  ConsumerSees r Consumer.resting = Unit
  ConsumerSees r Consumer.checked = r.head ≢ r.tail
  ConsumerSees r (Consumer.moved v) = (r.head ≢ r.tail) × (get_elem? r.slots r.head ≡ some v)

  -- Everything pushed has been popped, in order, or is in the ring, in order.
  pub record Inv (s : Shared A) : Type 0 where
    pub valid : IsValid k s.ring
    pub producer_sees : ProducerSees s.ring s.producer
    pub consumer_sees : ConsumerSees s.ring s.consumer
    pub in_order : map some s.pushed ≡ map some s.popped ++ contents k s.ring

  write-ConsumerSees :
      (r : Ring A) (c : Consumer A) (v : A)
      → ConsumerSees r c
      → ConsumerSees (record r { slots = set r.slots r.tail v }) c
  write-ConsumerSees r Consumer.resting v h = tt
  write-ConsumerSees r Consumer.checked v h = h
  write-ConsumerSees r (Consumer.moved a) v h =
      (h.0, get_elem?-set_ne r.slots v (λ e. h.0 (sym e)) ∙ h.1)

  next-ne : (r : Ring A) → IsValid k r → r.head ≢ r.tail → next k r.tail ≢ next k r.head
  next-ne r v ne = ground (arith, next_wrap k r.tail v.tail_in, next_wrap k r.head v.head_in)

  write-Inv :
      (s : Shared A) (v : A)
      → s.producer ≡ Producer.checked v
      → Inv s
      → Inv (record s {
        ring = record s.ring { slots = set s.ring.slots s.ring.tail v };
        producer = Producer.written v;
      })
  write-Inv s v e i =
      let sees : next k s.ring.tail ≢ s.ring.head = subst (ProducerSees s.ring) e i.producer_sees in
      record {
        valid = ground (arith, length-set s.ring.slots s.ring.tail v);
        producer_sees =
            (sees, get_elem?-set_self s.ring.slots s.ring.tail v (omega (arith, i.valid.storage)));
        consumer_sees = write-ConsumerSees s.ring s.consumer v i.consumer_sees;
        in_order =
            i.in_order
            ∙ ap (◌++◌ (map some s.popped)) (sym (contents-write k s.ring i.valid v sees));
      }

  publish-ConsumerSees :
      (r : Ring A) (c : Consumer A) (t : ℕ)
      → t ≢ r.head
      → ConsumerSees r c
      → ConsumerSees (record r { tail = t }) c
  publish-ConsumerSees r Consumer.resting t ne h = tt
  publish-ConsumerSees r Consumer.checked t ne h = λ e. ne (sym e)
  publish-ConsumerSees r (Consumer.moved v) t ne h = (λ e. ne (sym e), h.1)

  publish-Inv :
      (s : Shared A) (v : A)
      → s.producer ≡ Producer.written v
      → Inv s
      → Inv (record s {
        ring = record s.ring { tail = next k s.ring.tail };
        producer = Producer.resting;
        pushed = s.pushed ++ v ∷ [];
      })
  publish-Inv s v e i =
      let sees : (next k s.ring.tail ≢ s.ring.head)
          × (get_elem? s.ring.slots s.ring.tail ≡ some v) =
        subst (ProducerSees s.ring) e i.producer_sees in
      record {
        valid = ground (arith, next_in k s.ring i.valid s.ring.tail i.valid.tail_in);
        producer_sees = tt;
        consumer_sees =
            publish-ConsumerSees s.ring s.consumer (next k s.ring.tail) sees.0 i.consumer_sees;
        in_order = simp (
          map-append,
          contents-publish k s.ring i.valid sees.0,
          sees.1,
          i.in_order,
          append_assoc,
        );
      }

  release-ProducerSees :
      (r : Ring A) (p : Producer A)
      → IsValid k r
      → r.head ≢ r.tail
      → ProducerSees r p
      → ProducerSees (record r { head = next k r.head }) p
  release-ProducerSees r Producer.resting v ne h = tt
  release-ProducerSees r (Producer.checked a) v ne h = next-ne r v ne
  release-ProducerSees r (Producer.written a) v ne h = (next-ne r v ne, h.1)

  release-Inv :
      (s : Shared A) (v : A)
      → s.consumer ≡ Consumer.moved v
      → Inv s
      → Inv (record s {
        ring = record s.ring { head = next k s.ring.head };
        consumer = Consumer.resting;
        popped = s.popped ++ v ∷ [];
      })
  release-Inv s v e i =
      let sees : (s.ring.head ≢ s.ring.tail) × (get_elem? s.ring.slots s.ring.head ≡ some v) =
        subst (ConsumerSees s.ring) e i.consumer_sees in
      record {
        valid = ground (arith, next_in k s.ring i.valid s.ring.head i.valid.head_in);
        producer_sees = release-ProducerSees s.ring s.producer i.valid sees.0 i.producer_sees;
        consumer_sees = tt;
        in_order =
            i.in_order
            ∙ ap (◌++◌ (map some s.popped)) (
                contents-take k s.ring i.valid sees.0
                ∙ ap
                    (λ (o : Option A). o ∷ contents k (record s.ring { head = next k s.ring.head }))
                    sees.1)
            ∙ simp (map-append, append_assoc);
      }

  pub Step-Inv : {s t : Shared A} → Step s t → Inv s → Inv t
  Step-Inv (push_check s v e room) i = ground arith
  Step-Inv (push_write s v e) i = write-Inv s v e i
  Step-Inv (push_publish s v e) i = publish-Inv s v e i
  Step-Inv (pop_check s e some_item) i = ground arith
  Step-Inv (pop_move s v e read) i = ground arith
  Step-Inv (pop_release s v e) i = release-Inv s v e i

  Reach-Inv : {s t : Shared A} → Reach s t → Inv s → Inv t
  Reach-Inv here i = i
  Reach-Inv (next_step r st) i = Step-Inv st (Reach-Inv r i)

  -- Both threads before their first call.
  unfoldable pub start : List A → Shared A
  start slots = record {
    ring = record { tail = 0; head = 0; slots = slots };
    producer = Producer.resting;
    consumer = Consumer.resting;
    pushed = [];
    popped = [];
  }

  start-Inv : (slots : List A) → length slots ≡ 2 ^ k → Inv (start slots)
  unfolding start
  start-Inv slots h = record {
    valid = omega (arith, pow-pos k);
    producer_sees = tt;
    consumer_sees = tt;
    in_order = refl;
  }

  unmap :
      (xs ys : List A) (w : List (Option A))
      → map some xs ≡ map some ys ++ w
      → (zs : List A) × (xs ≡ ys ++ zs) × (w ≡ map some zs)
  unmap xs [] w e = (xs, refl, sym e)
  unmap [] (y ∷ ys) w e = cc
  unmap (x ∷ xs) (y ∷ ys) w e =
      let (zs, p, q) = unmap xs ys w (ground arith) in (zs, ground arith, q)

  -- In every interleaving of one producer and one consumer over a ring of 2 ^ k slots, what has been
  -- popped is a prefix of what has been pushed, the rest is in the ring in order, and at most
  -- `Capacity - 1` items are in it: nothing is lost, repeated, reordered or overwritten.
  pub Reach-in_order :
      (slots : List A) {s : Shared A}
      → length slots ≡ 2 ^ k
      → Reach (start slots) s
      → (rest : List A) × (s.pushed ≡ s.popped ++ rest)
        × (contents k s.ring ≡ map some rest)
        × (length rest < 2 ^ k)
  unfolding start
  Reach-in_order slots {s} h r =
      let i = Reach-Inv r (start-Inv slots h) in
      let (rest, p, q) = unmap s.pushed s.popped (contents k s.ring) i.in_order in
      let n = length-Holds k s.ring rest (record { valid = i.valid; items = q }) in
      (rest, p, q, omega (arith, n, count-lt k s.ring i.valid))
