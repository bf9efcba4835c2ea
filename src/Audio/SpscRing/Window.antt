-- ===== src/Audio/SpscRing/Window.antt =====
-- The occupied slots of the ring: indices that go round at the capacity.
use native.Mathlib.Nat.{mod-eq_of_lt, mod-eq-sub-mod}
use native.Mathlib.Decide.{dec_lt}
use lclva.Prelude.{
  ℕ, zero, suc, ◌+◌, ◌-◌, ◌^◌, ◌≤◌, ◌<◌, ◌≡◌, ◌≢◌, refl, sym, ap, ap₂, ◌∙◌, List, [], ◌∷◌, ◌++◌,
  Option, some, arith, if◌then◌else◌, leb, length, get_elem?, set, get_elem?-set_self,
  get_elem?-set_ne, get_elem?-some, bit_and_mask, pow-pos,
}
use lclva.Audio.SpscRing.{Ring, next}

-- The index behind `i`, and the one `n` places behind `h`.
abbrev pub wrap : ℕ → ℕ → ℕ
wrap cap i = if leb cap i then i - cap else i

pub next_wrap : (k i : ℕ) → i < 2 ^ k → next k i ≡ wrap (2 ^ k) (i + 1)
unfolding next
next_wrap k i h = elim (dec_lt (i + 1) (2 ^ k)) [
  | yes p ↦ ground (arith, bit_and_mask k (i + 1), mod-eq_of_lt p)
  | no p ↦ ground (
    arith,
    bit_and_mask k (i + 1),
    mod-eq-sub-mod {n = i + 1} {m = 2 ^ k} (omega arith),
    mod-eq_of_lt {n = i + 1 - 2 ^ k} {m = 2 ^ k} (omega (arith, pow-pos k)),
  )
]

module _ {A : Type 0} (cap : ℕ) where
  -- The `n` slots from `h` on.
  abbrev pub window : List A → ℕ → ℕ → List (Option A)
  window slots h zero = []
  window slots h (suc n) = get_elem? slots h ∷ window slots (wrap cap (h + 1)) n

  -- Writing just behind a window extends it.
  pub window-set :
      (slots : List A) (v : A) (n h i : ℕ)
      → h < cap
      → n < cap
      → cap ≤ length slots
      → i ≡ wrap cap (h + n)
      → window (set slots i v) h (suc n) ≡ window slots h n ++ some v ∷ []
  window-set slots v zero h i hh hn hs e =
      ap (λ (o : Option A). o ∷ [])
        (ap (λ (j : ℕ). get_elem? (set slots i v) j) {x = h} {y = i} (ground arith)
          ∙ get_elem?-set_self slots i v (ground arith))
  window-set slots v (suc n) h i hh hn hs e =
      ap₂ ◌∷◌ (get_elem?-set_ne slots v (ground arith))
        (window-set slots v n (wrap cap (h + 1)) i (ground arith) (omega arith) hs (ground arith))

  -- The slot behind a window is its last one if it is made longer by one.
  window-snoc :
      (slots : List A) (n h : ℕ)
      → h < cap
      → n < cap
      → window slots h (suc n) ≡ window slots h n ++ get_elem? slots (wrap cap (h + n)) ∷ []
  window-snoc slots zero h hh hn = ap (λ (j : ℕ). get_elem? slots j ∷ []) (ground arith)
  window-snoc slots (suc n) h hh hn =
      ap (λ (l : List (Option A)). get_elem? slots h ∷ l)
        (window-snoc slots n (wrap cap (h + 1)) (ground arith) (omega arith)
          ∙ ap (λ (j : ℕ). window slots (wrap cap (h + 1)) n ++ get_elem? slots j ∷ [])
              {x = wrap cap (wrap cap (h + 1) + n)} {y = wrap cap (h + suc n)} (ground arith))

  -- A write at the index behind a window leaves it alone.
  window-set_out :
      (slots : List A) (v : A) (n h i : ℕ)
      → h < cap
      → n < cap
      → i ≡ wrap cap (h + n)
      → window (set slots i v) h n ≡ window slots h n
  window-set_out slots v zero h i hh hn e = refl
  window-set_out slots v (suc n) h i hh hn e =
      ap₂ ◌∷◌ (get_elem?-set_ne slots v (ground arith))
        (window-set_out slots v n (wrap cap (h + 1)) i (ground arith) (omega arith) (ground arith))

-- How many slots are occupied.
abbrev pub count : {A : Type 0} → ℕ → Ring A → ℕ
count cap r = if leb r.head r.tail then r.tail - r.head else r.tail + cap - r.head

-- What the ring holds, oldest first.
abbrev pub contents : {A : Type 0} → ℕ → Ring A → List (Option A)
contents k r = window (2 ^ k) r.slots r.head (count (2 ^ k) r)

pub length-window :
    {A : Type 0} (cap : ℕ) (slots : List A) (h n : ℕ) → length (window cap slots h n) ≡ n
length-window cap slots h zero = refl
length-window cap slots h (suc n) = ap suc (length-window cap slots (wrap cap (h + 1)) n)

-- `window` matches on `suc`, the code compares two indices.
pub window_of_pos :
    {A : Type 0} (cap : ℕ) (slots : List A) (h n : ℕ)
    → 0 < n
    → window cap slots h n ≡ get_elem? slots h ∷ window cap slots (wrap cap (h + 1)) (n - 1)
window_of_pos cap slots h zero p = elim p [ ]
window_of_pos cap slots h (suc n) p = ap (λ (m : ℕ). window cap slots h (suc m)) (omega arith)

module _ {A : Type 0} where
  -- The indices of a ring lie in its storage.
  pub record IsValid (k : ℕ) (r : Ring A) : Type 0 where
    pub tail_in : r.tail < 2 ^ k
    pub head_in : r.head < 2 ^ k
    pub storage : length r.slots ≡ 2 ^ k

module _ {A : Type 0} (k : ℕ) (r : Ring A) (v : IsValid k r) where
  open v use {tail_in, head_in, storage}

  count_take :
      r.head ≢ r.tail
      → count (2 ^ k) r ≡ suc (count (2 ^ k) (record r { head = wrap (2 ^ k) (r.head + 1) }))
  count_take ne = ground arith

  -- Moving the head on takes the oldest slot off.
  pub contents-take :
      r.head ≢ r.tail
      → contents k r ≡ get_elem? r.slots r.head ∷ contents k (record r { head = next k r.head })
  contents-take ne =
      ap (λ (n : ℕ). window (2 ^ k) r.slots r.head n) (count_take ne)
      ∙ ap (λ (h : ℕ). get_elem? r.slots r.head ∷ contents k (record r { head = h }))
          (sym (next_wrap k r.head head_in))

  count_put :
      wrap (2 ^ k) (r.tail + 1) ≢ r.head
      → (count (2 ^ k) (record r { tail = wrap (2 ^ k) (r.tail + 1) }) ≡ suc (count (2 ^ k) r))
        × (suc (count (2 ^ k) r) < 2 ^ k)
        × (r.tail ≡ wrap (2 ^ k) (r.head + count (2 ^ k) r))
  count_put ne = (ground arith, ground arith, ground arith)

  -- Writing at the tail and moving it on puts a slot at the end.
  pub contents-put :
      (a : A)
      → next k r.tail ≢ r.head
      → contents k (record r { slots = set r.slots r.tail a; tail = next k r.tail })
        ≡ contents k r ++ some a ∷ []
  contents-put a ne =
      let w = next_wrap k r.tail tail_in in
      let c = count_put (λ e. ne (w ∙ e)) in
      ap (λ (t : ℕ). contents k (record r { slots = set r.slots r.tail a; tail = t })) w
      ∙ ap (λ (n : ℕ). window (2 ^ k) (set r.slots r.tail a) r.head n) c.0
      ∙ window-set (2 ^ k) r.slots a (count (2 ^ k) r) r.head r.tail head_in (omega (arith, c.1))
          (omega (arith, storage)) c.2

  -- No read or write of an index is out of range, and the indices stay in range.
  pub next_in : (i : ℕ) → i < 2 ^ k → next k i < 2 ^ k
  next_in i h = ground (arith, next_wrap k i h)

  pub count_full : wrap (2 ^ k) (r.tail + 1) ≡ r.head → suc (count (2 ^ k) r) ≡ 2 ^ k
  count_full e = ground arith

  pub count_room : next k r.tail ≢ r.head → suc (count (2 ^ k) r) < 2 ^ k
  count_room ne = (count_put (λ e. ne (next_wrap k r.tail tail_in ∙ e))).1

  pub read_some : (i : ℕ) → i < 2 ^ k → (a : A) × (get_elem? r.slots i ≡ some a)
  read_some i h = get_elem?-some r.slots i (omega (arith, storage))

  -- Moving the tail on alone puts the slot that it names at the end.
  pub contents-publish :
      next k r.tail ≢ r.head
      → contents k (record r { tail = next k r.tail })
        ≡ contents k r ++ get_elem? r.slots r.tail ∷ []
  contents-publish ne =
      let w = next_wrap k r.tail tail_in in
      let c = count_put (λ e. ne (w ∙ e)) in
      ap (λ (t : ℕ). contents k (record r { tail = t })) w
      ∙ ap (λ (n : ℕ). window (2 ^ k) r.slots r.head n) c.0
      ∙ window-snoc (2 ^ k) r.slots (count (2 ^ k) r) r.head head_in (omega (arith, c.1))
      ∙ ap (λ (t : ℕ). contents k r ++ get_elem? r.slots t ∷ []) (sym c.2)

  -- Writing the slot at the tail changes nothing that the ring holds.
  pub contents-write :
      (a : A)
      → next k r.tail ≢ r.head
      → contents k (record r { slots = set r.slots r.tail a }) ≡ contents k r
  contents-write a ne =
      let c = count_put (λ e. ne (next_wrap k r.tail tail_in ∙ e)) in
      window-set_out (2 ^ k) r.slots a (count (2 ^ k) r) r.head r.tail head_in (omega (arith, c.1))
        c.2
