-- ===== src/Codec/Zigzag.antt =====
-- The zigzag encoding of saturn/bytearray.cc.
use Prim.Native.Nat.{bit_xor}
use native.Mathlib.Decide.{dec_lt}
use native.Mathlib.Nat.{pow-suc, one-le-pow, mod-eq_of_lt, mod-lt, add-mod_right}
use saturn.Base.{
  ℕ, zero, suc, ◌+◌, ◌-◌, ◌*◌, ◌/◌, ◌%◌, ◌^◌, ◌≤◌, ◌<◌, ◌≡◌, sym, ap, ap₂, ◌∙◌, arith, lt→ltb,
  le→ltb,
}
use saturn.Base.Bits.{bit_and_one, bit_xor_ones, bit_xor-zero}
use saturn.Codec.{encode_zigzag, decode_zigzag}

pow_half : (w : ℕ) → 0 < w → 2 ^ w ≡ 2 ^ (w - 1) * 2
pow_half zero h = absurd (omega arith)
pow_half (suc k) h = pow-suc 2 k ∙ ap (λ (t : ℕ). 2 ^ t * 2) {x = k} {y = suc k - 1} (omega arith)

pow_pos : (w : ℕ) → 0 < 2 ^ w
pow_pos w = one-le-pow w 2 (omega arith)

-- Patterns below the sign bit, which stand for 0 and up, go to the even numbers.
pub encode_zigzag_nonneg : (w v : ℕ) → 0 < w → v < 2 ^ (w - 1) → encode_zigzag w v ≡ v * 2
unfolding encode_zigzag
encode_zigzag_nonneg w v hw h =
    rw (lt→ltb v (2 ^ (w - 1)) h) (mod-eq_of_lt (omega (arith, pow_half w hw)))

-- The pattern of -n goes to 2n - 1.
pub encode_zigzag_neg :
    (w n : ℕ) → 0 < w → 0 < n → n ≤ 2 ^ (w - 1) → encode_zigzag w (2 ^ w - n) ≡ n * 2 - 1
unfolding encode_zigzag
encode_zigzag_neg w n hw hn h =
    rw (le→ltb (2 ^ w - n) (2 ^ (w - 1)) (omega (arith, pow_half w hw))) (
      ap (λ (t : ℕ). (t * 2 + 2 ^ w - 1) % 2 ^ w) {x = (2 ^ w - (2 ^ w - n)) % 2 ^ w} {y = n}
        (ap (λ (t : ℕ). t % 2 ^ w) {x = 2 ^ w - (2 ^ w - n)} {y = n} (omega (arith, pow_half w hw))
          ∙ mod-eq_of_lt (omega (arith, pow_half w hw)))
      ∙ ap (λ (t : ℕ). t % 2 ^ w) {x = n * 2 + 2 ^ w - 1} {y = n * 2 - 1 + 2 ^ w} (omega arith)
      ∙ add-mod_right (n * 2 - 1) (2 ^ w)
      ∙ mod-eq_of_lt (omega (arith, pow_half w hw)))

pub decode_zigzag_even : (w n : ℕ) → decode_zigzag w (n * 2) ≡ n
unfolding decode_zigzag
decode_zigzag_even w n = rw (bit_and_one (n * 2)) (
    ap₂ bit_xor {x = n * 2 / 2} {y = n} {u = (2 ^ w - n * 2 % 2) % 2 ^ w} {v = 0} (omega arith) (
      ap (λ (t : ℕ). t % 2 ^ w) {x = 2 ^ w - n * 2 % 2} {y = 0 + 2 ^ w} (omega arith)
      ∙ add-mod_right 0 (2 ^ w)
      ∙ mod-eq_of_lt (pow_pos w))
    ∙ bit_xor-zero n)

pub decode_zigzag_odd :
    (w n : ℕ) → 0 < w → 0 < n → n ≤ 2 ^ (w - 1) → decode_zigzag w (n * 2 - 1) ≡ 2 ^ w - n
unfolding decode_zigzag
decode_zigzag_odd w n hw hn h = rw (bit_and_one (n * 2 - 1)) (
    ap₂ bit_xor {x = (n * 2 - 1) / 2} {y = n - 1} {u = (2 ^ w - (n * 2 - 1) % 2) % 2 ^ w}
      {v = 2 ^ w - 1} (omega arith)
      (ap (λ (t : ℕ). t % 2 ^ w) {x = 2 ^ w - (n * 2 - 1) % 2} {y = 2 ^ w - 1} (omega arith)
        ∙ mod-eq_of_lt (omega (arith, pow_pos w)))
    ∙ omega (arith, bit_xor_ones w (n - 1) (omega (arith, pow_half w hw)), pow_half w hw))

-- Every pattern of `w` bits comes back.
pub decode-encode_zigzag : (w v : ℕ) → 0 < w → v < 2 ^ w → decode_zigzag w (encode_zigzag w v) ≡ v
decode-encode_zigzag w v hw h = elim (dec_lt v (2 ^ (w - 1))) [
  | yes low ↦ ap (decode_zigzag w) (encode_zigzag_nonneg w v hw low) ∙ decode_zigzag_even w v
  | no high ↦
      let n : ℕ = 2 ^ w - v in
      let bound : n ≤ 2 ^ (w - 1) = omega (arith, pow_half w hw) in
      let back : 2 ^ w - n ≡ v = omega arith in
      ap (λ (t : ℕ). decode_zigzag w (encode_zigzag w t)) (sym back)
      ∙ ap (decode_zigzag w) (encode_zigzag_neg w n hw (omega arith) bound)
      ∙ decode_zigzag_odd w n hw (omega arith) bound
      ∙ back
]

-- The encoded value has `w` bits.
pub encode_zigzag-lt : (w v : ℕ) → encode_zigzag w v < 2 ^ w
unfolding encode_zigzag
encode_zigzag-lt w v = elim (dec_lt v (2 ^ (w - 1))) [
  | yes low ↦ rw (lt→ltb v (2 ^ (w - 1)) low) (mod-lt (v * 2) (pow_pos w))
  | no high ↦
      rw (le→ltb v (2 ^ (w - 1)) (omega arith))
        (mod-lt ((2 ^ w - v) % 2 ^ w * 2 + 2 ^ w - 1) (pow_pos w))
]

-- Every number of `w` bits is the code of one pattern.
pub encode-decode_zigzag : (w r : ℕ) → 0 < w → r < 2 ^ w → encode_zigzag w (decode_zigzag w r) ≡ r
encode-decode_zigzag w r hw h = elim (dec_lt 0 (r % 2)) [
  | yes odd ↦
      let n : ℕ = r / 2 + 1 in
      let shape : n * 2 - 1 ≡ r = omega arith in
      let bound : n ≤ 2 ^ (w - 1) = omega (arith, pow_half w hw) in
      ap (λ (t : ℕ). encode_zigzag w (decode_zigzag w t)) (sym shape)
      ∙ ap (encode_zigzag w) (decode_zigzag_odd w n hw (omega arith) bound)
      ∙ encode_zigzag_neg w n hw (omega arith) bound
      ∙ shape
  | no even ↦
      let shape : r / 2 * 2 ≡ r = omega arith in
      ap (λ (t : ℕ). encode_zigzag w (decode_zigzag w t)) (sym shape)
      ∙ ap (encode_zigzag w) (decode_zigzag_even w (r / 2))
      ∙ encode_zigzag_nonneg w (r / 2) hw (omega (arith, pow_half w hw))
      ∙ shape
]
