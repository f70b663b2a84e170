-- ===== src/Codec/Varint.antt =====
-- The variable-length encoding of saturn/bytearray.cc.
use Prim.Native.Nat.{bit_and, bit_or}
use native.Mathlib.Nat.{pow-suc, div-add-mod', mod-eq_of_lt, mod-lt, one-le-pow}
use native.Mathlib.Numerals.{towards_suc}
use native.Mathlib.Decide.{dec_lt}
use saturn.Base.{
  ℕ, zero, suc, ◌+◌, ◌*◌, ◌/◌, ◌%◌, ◌^◌, ◌≤◌, ◌<◌, ◌≡◌, refl, ap, ◌∙◌, List, [], ◌∷◌, All, length,
  some, arith, ltb, lt→ltb, le→ltb, if◌then◌else◌,
}
use saturn.Base.Bits.{bit_and_low7, bit_or_shifted, bit_or-lt}
use saturn.Codec.{varint, varint_round}
use saturn.Codec.Fixed.{IsByte}

-- The groups of seven bits of a value, every one but the last marked by the top bit.
unfoldable pub groups : ℕ → ℕ → List ℕ
groups zero v = v ∷ []
groups (suc k) v = if ltb v 128 then v ∷ [] else (v % 128 + 128) ∷ groups k (v / 128)

low_byte : (v : ℕ) → bit_or (bit_and v 0x7f) 0x80 % 256 ≡ v % 128 + 128
low_byte v = rw (bit_and_low7 v) (omega (arith, bit_or_shifted 7 1 (v % 128) (omega arith)))

-- An array of `k + 1` bytes has room for every value of `k + 1` groups, and holds the groups then.
pub varint-groups : (k v : ℕ) → v < 128 ^ suc k → varint (suc k) v ≡ some (groups k v)
unfolding varint groups
varint-groups zero v h =
    rw (lt→ltb v 128 (omega arith)) (ap (λ (t : ℕ). some (t ∷ [])) (omega arith))
varint-groups (suc k) v h = elim (dec_lt v 128) [
  | yes small ↦ rw (lt→ltb v 128 small) (ap (λ (t : ℕ). some (t ∷ [])) (omega arith))
  | no big_value ↦ rw (
    le→ltb v 128 (omega arith),
    varint-groups k (v / 128) (omega (arith, pow-suc 128 (suc k))),
    low_byte v,
  )
]

pub length-groups : (k v : ℕ) → (1 ≤ length (groups k v)) × (length (groups k v) ≤ suc k)
unfolding groups
length-groups zero v = omega arith
length-groups (suc k) v = ground (arith, length-groups k (v / 128))

pub groups-IsByte : (k v : ℕ) → v < 128 ^ suc k → All IsByte (groups k v)
unfolding groups
groups-IsByte zero v h = omega arith
groups-IsByte (suc k) v h =
    ground (arith, groups-IsByte k (v / 128) (omega (arith, pow-suc 128 (suc k))))

-- A byte below 0x80 ends the number, and adds its bits at the shift.
pub varint_round_last :
    (w i result b : ℕ)
    → b < 128
    → result < 2 ^ i
    → b * 2 ^ i < 2 ^ w
    → varint_round w i result b ≡ result + b * 2 ^ i
unfolding varint_round
varint_round_last w i result b hb hr fits =
    rw (lt→ltb b 128 hb, mod-eq_of_lt fits) (bit_or_shifted i b result hr)

-- A marked byte adds its seven low bits.
pub varint_round_more :
    (w i result g : ℕ)
    → g < 128
    → result < 2 ^ i
    → g * 2 ^ i < 2 ^ w
    → varint_round w i result (g + 128) ≡ result + g * 2 ^ i
unfolding varint_round
varint_round_more w i result g hg hr fits =
    rw (le→ltb (g + 128) 128 (omega arith), bit_and_low7 (g + 128))
      (ap (λ (t : ℕ). bit_or result (t * 2 ^ i % 2 ^ w)) {x = (g + 128) % 128} {y = g} (omega arith)
        ∙ ap (bit_or result) (mod-eq_of_lt fits)
        ∙ bit_or_shifted i g result hr)

pow_shift : (i : ℕ) → 2 ^ (i + 7) ≡ 128 * 2 ^ i
pow_shift i = simp towards_suc (omega arith)

-- The lowest group of a value and its other groups, at the shift `i`.
pub group_split : (v i : ℕ) → v * 2 ^ i ≡ v % 128 * 2 ^ i + v / 128 * 2 ^ (i + 7)
group_split v i = omega (
  arith,
  ap (λ (t : ℕ). t * 2 ^ i) (div-add-mod' v 128),
  ap (λ (t : ℕ). v / 128 * t) (pow_shift i),
)

-- A result below the shift, with one more group, is below the next shift.
pub group_below : (i result g : ℕ) → g < 128 → result < 2 ^ i → result + g * 2 ^ i < 2 ^ (i + 7)
group_below i result g hg hr = rw (pow_shift i) (grind arith)

-- A round keeps a result of `w` bits within `w` bits.
pub varint_round-lt : (w i result b : ℕ) → result < 2 ^ w → varint_round w i result b < 2 ^ w
unfolding varint_round
varint_round-lt w i result b h = elim (dec_lt b 128) [
  | yes small ↦
      rw (lt→ltb b 128 small) (
        bit_or-lt w result (b * 2 ^ i % 2 ^ w) h
          (mod-lt (b * 2 ^ i) (one-le-pow w 2 (omega arith))))
  | no marked ↦ rw (le→ltb b 128 (omega arith)) (
      bit_or-lt w result (bit_and b 0x7f * 2 ^ i % 2 ^ w) h
        (mod-lt (bit_and b 0x7f * 2 ^ i) (one-le-pow w 2 (omega arith))))
]

-- More room makes no difference to a value that fits.
pub groups_fit : (j k v : ℕ) → k ≤ j → v < 128 ^ suc k → groups j v ≡ groups k v
unfolding groups
groups_fit zero zero v h hv = refl
groups_fit zero (suc k) v h hv = absurd (omega arith)
groups_fit (suc j) zero v h hv = rw (lt→ltb v 128 (omega arith))
groups_fit (suc j) (suc k) v h hv = elim (dec_lt v 128) [
  | yes small ↦ rw (lt→ltb v 128 small)
  | no more ↦ rw (
    le→ltb v 128 (omega arith),
    groups_fit j k (v / 128) (omega arith) (omega (arith, pow-suc 128 (suc k))),
  )
]
