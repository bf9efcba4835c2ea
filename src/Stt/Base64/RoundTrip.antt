-- ===== src/Stt/Base64/RoundTrip.antt =====
-- src/stt/realtime_envelope.cpp: decoding what was encoded.
use lclva.Prelude.{
  ℕ, ◌+◌, ◌*◌, ◌/◌, ◌%◌, ◌<◌, ◌≡◌, refl, ap, ap₂, ◌∙◌, List, [], ◌∷◌, none, some, true, false, not,
  ◌==◌, length, All, arith, if_true, if_false,
}
use lclva.Stt.Base64.{
  alpha, lookup, padding, triple, first, second, third, fourth, base64_encode, malformed,
  last_group, full_group, of_two, of_three, of_four, group, put, decode_groups, base64_decode,
}

abbrev pub IsByte : ℕ → Type 0
IsByte b = b < 256

lookup-alpha : (i : ℕ) → i < 64 → lookup (alpha i) ≡ some i
lookup-alpha i h = ground arith

alpha-padding : (i : ℕ) → i < 64 → (alpha i == padding) ≡ false
alpha-padding i h = ground arith

-- The number that four digits make, and its bytes.
abbrev digits : ℕ → ℕ → ℕ → ℕ → ℕ
digits w x y z = triple (w * 4) 0 0 + x * 4096 + y * 64 + z

abbrev bytes_of : ℕ → List ℕ
bytes_of t = t / 65536 % 256 ∷ t / 256 % 256 ∷ t % 256 ∷ []

of_two-alpha :
    (w x c d : ℕ)
    → w < 64
    → x < 64
    → of_two (lookup (alpha w)) (lookup (alpha x)) c d ≡ of_two (some w) (some x) c d
of_two-alpha w x c d hw hx = ap₂ (λ a b. of_two a b c d) (lookup-alpha w hw) (lookup-alpha x hx)

of_three-alpha :
    (w x y d : ℕ) → y < 64 → of_two (some w) (some x) (alpha y) d ≡ of_three w x (some y) d
of_three-alpha w x y d hy =
    if_false (alpha y == padding) _ (of_three w x (lookup (alpha y)) d) (alpha-padding y hy)
    ∙ ap (λ o. of_three w x o d) (lookup-alpha y hy)

of_four-alpha :
    (w x y z : ℕ)
    → z < 64
    → of_three w x (some y) (alpha z) ≡ full_group (bytes_of (digits w x y z))
of_four-alpha w x y z hz =
    if_false (alpha z == padding) _ (of_four w x y (lookup (alpha z))) (alpha-padding z hz)
    ∙ ap (of_four w x y) (lookup-alpha z hz)

group_full :
    (w x y z : ℕ)
    → w < 64
    → x < 64
    → y < 64
    → z < 64
    → group (alpha w) (alpha x) (alpha y) (alpha z) ≡ full_group (bytes_of (digits w x y z))
unfolding group
group_full w x y z hw hx hy hz =
    of_two-alpha w x (alpha y) (alpha z) hw hx
    ∙ of_three-alpha w x y (alpha z) hy
    ∙ of_four-alpha w x y z hz

digits_of :
    (t : ℕ) → t < 16777216 → digits (t / 262144 % 64) (t / 4096 % 64) (t / 64 % 64) (t % 64) ≡ t
digits_of t h = omega arith

bytes_of-triple :
    (a b c : ℕ) → IsByte a → IsByte b → IsByte c → bytes_of (triple a b c) ≡ a ∷ b ∷ c ∷ []
bytes_of-triple a b c ha hb hc =
    let x : triple a b c / 65536 % 256 ≡ a = omega arith in
    let y : triple a b c / 256 % 256 ≡ b = omega arith in
    let z : triple a b c % 256 ≡ c = omega arith in
    ap₂ (λ p q. p ∷ q) x (ap₂ (λ p q. p ∷ q) y (ap (λ p. p ∷ []) z))

group_one :
    (a : ℕ)
    → IsByte a
    → let t = triple a 0 0 in group (first t) (second t) padding padding ≡ last_group (a ∷ [])
unfolding group
group_one a h =
    let w = triple a 0 0 / 262144 % 64 in
    let x = triple a 0 0 / 4096 % 64 in
    let clean : x % 16 ≡ 0 = omega arith in
    let b : (triple (w * 4) 0 0 + x * 4096) / 65536 % 256 ≡ a = omega arith in
    of_two-alpha w x padding padding (omega arith) (omega arith)
    ∙ if_true (x % 16 == 0) _ malformed (ap (λ (k : ℕ). k == 0) clean)
    ∙ ap (λ (k : ℕ). last_group (k ∷ [])) b

group_two :
    (a b : ℕ)
    → IsByte a
    → IsByte b
    → let t = triple a b 0 in group (first t) (second t) (third t) padding ≡ last_group (a ∷ b ∷ [])
unfolding group
group_two a b ha hb =
    let w = triple a b 0 / 262144 % 64 in
    let x = triple a b 0 / 4096 % 64 in
    let y = triple a b 0 / 64 % 64 in
    let clean : y % 4 ≡ 0 = omega arith in
    let t = triple (w * 4) 0 0 + x * 4096 + y * 64 in
    let p : t / 65536 % 256 ≡ a = omega arith in
    let q : t / 256 % 256 ≡ b = omega arith in
    of_two-alpha w x (third (triple a b 0)) padding (omega arith) (omega arith)
    ∙ of_three-alpha w x y padding (omega arith)
    ∙ if_true (y % 4 == 0) (last_group (t / 65536 % 256 ∷ t / 256 % 256 ∷ [])) malformed
        (ap (λ (k : ℕ). k == 0) clean)
    ∙ ap₂ (λ (k l : ℕ). last_group (k ∷ l ∷ [])) p q

group_three :
    (a b c : ℕ)
    → IsByte a
    → IsByte b
    → IsByte c
    → let t = triple a b c in
      group (first t) (second t) (third t) (fourth t) ≡ full_group (a ∷ b ∷ c ∷ [])
group_three a b c ha hb hc =
    let t = triple a b c in
    group_full (t / 262144 % 64) (t / 4096 % 64) (t / 64 % 64) (t % 64) (omega arith) (omega arith)
      (omega arith) (omega arith)
    ∙ ap (λ k. full_group (bytes_of k)) (digits_of t (omega arith))
    ∙ ap full_group (bytes_of-triple a b c ha hb hc)

decode_groups-encode : (s : List ℕ) → All IsByte s → decode_groups (base64_encode s) ≡ some s
unfolding base64_encode decode_groups
decode_groups-encode [] h = refl
decode_groups-encode (a ∷ []) (ha, _) = ap (λ g. put g (some [])) (group_one a ha)
decode_groups-encode (a ∷ b ∷ []) (ha, (hb, _)) = ap (λ g. put g (some [])) (group_two a b ha hb)
decode_groups-encode (a ∷ b ∷ c ∷ s) (ha, (hb, (hc, h))) =
    ap₂ put (group_three a b c ha hb hc) (decode_groups-encode s h)

pub length-encode : (s : List ℕ) → length (base64_encode s) ≡ (length s + 2) / 3 * 4
unfolding base64_encode
length-encode [] = refl
length-encode (a ∷ []) = refl
length-encode (a ∷ b ∷ []) = refl
length-encode (a ∷ b ∷ c ∷ s) = omega (arith, length-encode s)

-- Bytes that are encoded are decoded to themselves, and the encoded text has four characters for each
-- three bytes begun.
pub decode-encode :
    (s : List ℕ)
    → All IsByte s
    → (base64_decode (base64_encode s) ≡ some s)
      × (length (base64_encode s) ≡ (length s + 2) / 3 * 4)
unfolding base64_decode
decode-encode s h =
    let n = length-encode s in
    let whole : (length (base64_encode s) % 4 == 0) ≡ true = ground (arith, n) in
    (
      if_false (not (length (base64_encode s) % 4 == 0)) none (decode_groups (base64_encode s))
            (ap not whole)
          ∙ decode_groups-encode s h,
      n,
    )
