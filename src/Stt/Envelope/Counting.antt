-- ===== src/Stt/Envelope/Counting.antt =====
-- src/stt/realtime_envelope.cpp: vectors of fragments as functions, and how many have come.
use lclva.Prelude.{
  ℕ, zero, suc, ◌<◌, ◌≤◌, ◌≡◌, inl, inr, refl, ap, ap₂, ◌∙◌, List, [], ◌∷◌, Bool, true, false, not,
  if◌then◌else◌, ◌==◌, length, at, arith, Bool-cases,
}
use lclva.Stt.Envelope.{Text, same_text, is_empty, has_fragment, empty_fragments}

pub same_text_refl : (s : Text) → same_text s s ≡ true
same_text_refl [] = refl
same_text_refl (c ∷ s) = ground (arith, same_text_refl s)

-- The first `n` values of a function.
abbrev pub tabulate {ℓ} : {A : Type ℓ} → ℕ → (ℕ → A) → List A
tabulate zero f = []
tabulate (suc n) f = f 0 ∷ tabulate n (λ i. f (suc i))

pub list_is :
    (n : ℕ) (fs : List Text) (f : ℕ → Text)
    → length fs ≡ n
    → ((i : ℕ) → i < n → at [] fs i ≡ f i)
    → fs ≡ tabulate n f
list_is zero [] f l e = refl
list_is zero (x ∷ fs) f l e = absurd (omega arith)
list_is (suc n) [] f l e = absurd (omega arith)
list_is (suc n) (x ∷ fs) f l e =
    ap₂ (λ a b. a ∷ b) (e 0 (omega arith))
      (list_is n fs (λ i. f (suc i)) (omega arith) (λ i h. e (suc i) (omega arith)))

pub has_fragment_lem : (fs : List Text) (i : ℕ) → has_fragment fs i ≡ not (is_empty (at [] fs i))
has_fragment_lem [] i = refl
has_fragment_lem (x ∷ fs) zero = refl
has_fragment_lem (x ∷ fs) (suc i) = has_fragment_lem fs i

pub length-empty_fragments : (n : ℕ) → length (empty_fragments n) ≡ n
length-empty_fragments zero = refl
length-empty_fragments (suc n) = ap suc (length-empty_fragments n)

pub at-empty_fragments : (n i : ℕ) → at [] (empty_fragments n) i ≡ []
at-empty_fragments zero i = refl
at-empty_fragments (suc n) zero = refl
at-empty_fragments (suc n) (suc i) = at-empty_fragments n i

-- Which fragments have come, and how many of the first `n`.
abbrev pub mark : ℕ → (ℕ → Bool) → ℕ → Bool
mark idx g i = if i == idx then true else g i

abbrev pub count : ℕ → (ℕ → Bool) → ℕ
count zero g = 0
count (suc n) g = if g n then suc (count n g) else count n g

pub count-none : (n : ℕ) → count n (λ i. false) ≡ 0
count-none zero = refl
count-none (suc n) = count-none n

pub count_le : (n : ℕ) (g : ℕ → Bool) → count n g ≤ n
count_le zero g = omega arith
count_le (suc n) g = ground (arith, count_le n g)

count-mark_above : (n idx : ℕ) (g : ℕ → Bool) → n ≤ idx → count n (mark idx g) ≡ count n g
count-mark_above zero idx g h = refl
count-mark_above (suc n) idx g h = ground (arith, count-mark_above n idx g (omega arith))

pub count-mark :
    (n idx : ℕ) (g : ℕ → Bool) → idx < n → g idx ≡ false → count n (mark idx g) ≡ suc (count n g)
count-mark zero idx g h e = absurd (omega arith)
count-mark (suc n) idx g h e = elim (Bool-cases (n == idx)) [
  | inl q ↦
      let same : n ≡ idx = ground (arith, q) in
      let off : g n ≡ false = ap g same ∙ e in
      ground (arith, q, off, count-mark_above n idx g (omega (arith, same)))
  | inr q ↦
      let below : idx < n = ground (arith, q, h) in ground (arith, q, count-mark n idx g below e)
]

count_same : (n : ℕ) (g h : ℕ → Bool) → ((i : ℕ) → g i ≡ h i) → count n g ≡ count n h
count_same zero g h e = refl
count_same (suc n) g h e = ground (arith, e n, count_same n g h e)

pub count-mark_again : (n idx : ℕ) (g : ℕ → Bool) → g idx ≡ true → count n (mark idx g) ≡ count n g
count-mark_again n idx g e = count_same n (mark idx g) g (λ i. grind (arith, e))

pub count-mark_le : (n idx : ℕ) (g : ℕ → Bool) → idx < n → count n g ≤ count n (mark idx g)
count-mark_le n idx g h = elim (Bool-cases (g idx)) [
  | inl e ↦ omega (arith, count-mark_again n idx g e)
  | inr e ↦ omega (arith, count-mark n idx g h e)
]

pub count_full : (n : ℕ) (g : ℕ → Bool) → count n g ≡ n → (i : ℕ) → i < n → g i ≡ true
count_full zero g e i h = absurd (omega arith)
count_full (suc n) g e i h = elim (Bool-cases (g n)) [
  | inl q ↦
      let rest : count n g ≡ n = ground (arith, q, e) in
      elim (Bool-cases (i == n)) [
        | inl s ↦ ap g (ground (arith, s)) ∙ q
        | inr s ↦ count_full n g rest i (ground (arith, s, h))
      ]
  | inr q ↦ absurd (ground (arith, q, e, count_le n g))
]

pub count_all : (n : ℕ) (g : ℕ → Bool) → ((i : ℕ) → i < n → g i ≡ true) → count n g ≡ n
count_all zero g e = refl
count_all (suc n) g e = ground (arith, e n (omega arith), count_all n g (λ i h. e i (omega arith)))
