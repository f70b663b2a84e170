-- ===== src/Base/Bits.antt =====
-- Masks, shifts and `|`, `^` of the native numbers as arithmetic.
use Prim.Native.Nat.{
  ℕ, zero, suc, ◌+◌, ◌-◌, ◌*◌, ◌/◌, ◌%◌, ◌^◌, ◌≤◌, ◌<◌, min, max, bit_and, bit_or, bit_xor, digits,
  bitwise, differ, bit_and-bitwise, bit_or-bitwise, bit_xor-bitwise,
}
use mathlib.Core.Path.{◌≡◌, refl, ap, ◌∙◌}
use native.Mathlib.Omega.{arith}
use native.Mathlib.Nat.{pow-suc, one-le-pow}
use native.Mathlib.Decide.{dec_le}

differ-zero : (x : ℕ) → differ x 0 ≡ x
differ-zero zero = refl
differ-zero (suc x) = refl

differ-one : (x : ℕ) → x < 2 → differ x 1 + x ≡ 1
differ-one zero h = refl
differ-one (suc zero) h = refl
differ-one (suc (suc x)) h = absurd (omega arith)

module _ (z : ℕ → ℕ) (f : ℕ → ℕ → ℕ) where
  -- One more unit of fuel changes nothing once the number fits.
  more_fuel : (n a b : ℕ) → a ≤ n → digits z f (suc n) a b ≡ digits z f n a b
  more_fuel zero zero b h = refl
  more_fuel zero (suc a) b h = absurd (omega arith)
  more_fuel (suc n) zero b h = refl
  more_fuel (suc n) (suc a) b h =
      ap (λ (d : ℕ). d * 2 + f (suc a % 2) (b % 2)) (more_fuel n (suc a / 2) (b / 2) (omega arith))

  enough_fuel : (n m a b : ℕ) → a ≤ m → m ≤ n → digits z f n a b ≡ digits z f m a b
  enough_fuel zero m a b h k = ap (λ j. digits z f j a b) {x = 0} {y = m} (omega arith)
  enough_fuel (suc n) m a b h k = elim (dec_le m n) [
    | yes l ↦ more_fuel n a b (omega arith) ∙ enough_fuel n m a b h l
    | no g ↦ ap (λ j. digits z f j a b) {x = suc n} {y = m} (omega arith)
  ]

  -- The lowest digit of the result, without the fuel.
  lowest_digit :
      (x y : ℕ)
      → bitwise z f (suc x) y ≡ f (suc x % 2) (y % 2) + 2 * bitwise z f (suc x / 2) (y / 2)
  lowest_digit x y =
      omega (arith, enough_fuel x (suc x / 2) (suc x / 2) (y / 2) (omega arith) (omega arith))

bit_xor_step : (m n : ℕ) → bit_xor m n ≡ differ (m % 2) (n % 2) + 2 * bit_xor (m / 2) (n / 2)
bit_xor_step zero n = simp bit_xor-bitwise (omega arith)
bit_xor_step (suc m) n = simp bit_xor-bitwise (lowest_digit (λ k. k) differ m n)

pub bit_or_step : (m n : ℕ) → bit_or m n ≡ max (m % 2) (n % 2) + 2 * bit_or (m / 2) (n / 2)
bit_or_step zero n = simp bit_or-bitwise (omega arith)
bit_or_step (suc m) n = simp bit_or-bitwise (lowest_digit (λ k. k) max m n)

pub bit_and_step : (m n : ℕ) → bit_and m n ≡ min (m % 2) (n % 2) + 2 * bit_and (m / 2) (n / 2)
bit_and_step zero n = simp bit_and-bitwise (omega arith)
bit_and_step (suc m) n = simp bit_and-bitwise (lowest_digit (λ k. zero) min m n)

bit_and-zero_below : (n a : ℕ) → a ≤ n → bit_and a 0 ≡ 0
bit_and-zero_below n zero h = refl
bit_and-zero_below zero (suc a) h = absurd (omega arith)
bit_and-zero_below (suc n) (suc a) h =
    omega (arith, bit_and_step (suc a) 0, bit_and-zero_below n (suc a / 2) (omega arith))

pub bit_and_one : (a : ℕ) → bit_and a 1 ≡ a % 2
bit_and_one a = omega (arith, bit_and_step a 1, bit_and-zero_below (a / 2) (a / 2) (omega arith))

-- `& 0x7f` keeps the low seven bits.
pub bit_and_low7 : (a : ℕ) → bit_and a 0x7f ≡ a % 128
bit_and_low7 a = omega (
  arith,
  bit_and_step a 127,
  bit_and_step (a / 2) 63,
  bit_and_step (a / 2 / 2) 31,
  bit_and_step (a / 2 / 2 / 2) 15,
  bit_and_step (a / 2 / 2 / 2 / 2) 7,
  bit_and_step (a / 2 / 2 / 2 / 2 / 2) 3,
  bit_and_one (a / 2 / 2 / 2 / 2 / 2 / 2),
)

bit_or-zero_below : (n a : ℕ) → a ≤ n → bit_or a 0 ≡ a
bit_or-zero_below n zero h = refl
bit_or-zero_below zero (suc a) h = absurd (omega arith)
bit_or-zero_below (suc n) (suc a) h =
    omega (arith, bit_or_step (suc a) 0, bit_or-zero_below n (suc a / 2) (omega arith))

bit_xor-zero_below : (n a : ℕ) → a ≤ n → bit_xor a 0 ≡ a
bit_xor-zero_below n zero h = refl
bit_xor-zero_below zero (suc a) h = absurd (omega arith)
bit_xor-zero_below (suc n) (suc a) h =
    let low : differ (suc a % 2) 0 ≡ suc a % 2 = differ-zero (suc a % 2) in
    omega (arith, bit_xor_step (suc a) 0, bit_xor-zero_below n (suc a / 2) (omega arith), low)

pub bit_xor-zero : (a : ℕ) → bit_xor a 0 ≡ a
bit_xor-zero a = bit_xor-zero_below a a (omega arith)

double_pow : (q k : ℕ) → q * 2 ^ suc k ≡ q * 2 ^ k * 2
double_pow q k = omega (arith, ap (λ (t : ℕ). q * t) (pow-suc 2 k))

-- `r | (q << k)` is a sum when `r` fits `k` bits.
pub bit_or_shifted : (k q r : ℕ) → r < 2 ^ k → bit_or r (q * 2 ^ k) ≡ r + q * 2 ^ k
bit_or_shifted zero q zero h = simp bit_or-bitwise (omega arith)
bit_or_shifted zero q (suc r) h = absurd (omega arith)
bit_or_shifted (suc k) q r h = ground (
  arith,
  bit_or_step r (q * 2 ^ suc k),
  double_pow q k,
  bit_or_shifted k q (r / 2) (omega (arith, pow-suc 2 k)),
  pow-suc 2 k,
)

-- `^` with `k` ones complements `k` bits.
pub bit_xor_ones : (k a : ℕ) → a < 2 ^ k → bit_xor a (2 ^ k - 1) + a + 1 ≡ 2 ^ k
bit_xor_ones zero zero h = refl
bit_xor_ones zero (suc a) h = absurd (omega arith)
bit_xor_ones (suc k) a h = omega (
  arith,
  bit_xor_step a (2 ^ suc k - 1),
  halves,
  ap (λ (t : ℕ). bit_xor (a / 2) t) halves,
  odd,
  ap (λ (t : ℕ). differ (a % 2) t) odd,
  differ-one (a % 2) (omega arith),
  bit_xor_ones k (a / 2) (omega (arith, pow-suc 2 k)),
  pow-suc 2 k,
)
  where
    halves : (2 ^ suc k - 1) / 2 ≡ 2 ^ k - 1
    halves = omega (arith, pow-suc 2 k, one-le-pow k 2 (omega arith))

    odd : (2 ^ suc k - 1) % 2 ≡ 1
    odd = omega (arith, pow-suc 2 k, one-le-pow k 2 (omega arith))

-- `|` of two numbers of `k` bits has `k` bits.
pub bit_or-lt : (k a b : ℕ) → a < 2 ^ k → b < 2 ^ k → bit_or a b < 2 ^ k
bit_or-lt zero zero zero h h' = omega arith
bit_or-lt zero zero (suc b) h h' = absurd (omega arith)
bit_or-lt zero (suc a) b h h' = absurd (omega arith)
bit_or-lt (suc k) a b h h' = omega (
  arith,
  bit_or_step a b,
  pow-suc 2 k,
  bit_or-lt k (a / 2) (b / 2) (omega (arith, pow-suc 2 k)) (omega (arith, pow-suc 2 k)),
)

bit_or-zero : (a : ℕ) → bit_or a 0 ≡ a
bit_or-zero a = bit_or-zero_below a a (omega arith)
  where
    bit_or-zero_below : (n a : ℕ) → a ≤ n → bit_or a 0 ≡ a
    bit_or-zero_below n zero h = refl
    bit_or-zero_below zero (suc a) h = absurd (omega arith)
    bit_or-zero_below (suc n) (suc a) h =
        omega (arith, bit_or_step (suc a) 0, bit_or-zero_below n (suc a / 2) (omega arith))

-- A mask of `k` ones, halved.
ones_half : (k : ℕ) → (2 ^ suc k - 1) / 2 ≡ 2 ^ k - 1
ones_half k = omega (arith, pow-suc 2 k, one-le-pow k 2 (omega arith))

ones_odd : (k : ℕ) → (2 ^ suc k - 1) % 2 ≡ 1
ones_odd k = omega (arith, pow-suc 2 k, one-le-pow k 2 (omega arith))

-- `&` with `k` ones keeps the low `k` bits: what it takes away is a multiple of 2 ^ k.
pub bit_and_ones :
    (k a : ℕ) → (q : ℕ) × (a ≡ bit_and a (2 ^ k - 1) + q * 2 ^ k) × (bit_and a (2 ^ k - 1) < 2 ^ k)
bit_and_ones zero a = (
  a,
  omega (arith, bit_and-zero_below a a (omega arith)),
  omega (arith, bit_and-zero_below a a (omega arith)),
)
bit_and_ones (suc k) a =
    let (q, e, h) = bit_and_ones k (a / 2) in
    let step : bit_and a (2 ^ suc k - 1) ≡ min (a % 2) 1 + 2 * bit_and (a / 2) (2 ^ k - 1) =
      bit_and_step a (2 ^ suc k - 1)
      ∙ ap (λ t. min (a % 2) t + 2 * bit_and (a / 2) ((2 ^ suc k - 1) / 2)) (ones_odd k)
      ∙ ap (λ t. min (a % 2) 1 + 2 * bit_and (a / 2) t) (ones_half k) in
    (q, omega (arith, step, e, double_pow q k), omega (arith, step, h, pow-suc 2 k))

-- `|` with `k` ones sets the low `k` bits.
pub bit_or_ones :
    (k a : ℕ)
    → (q : ℕ) × (r : ℕ) × (a ≡ r + q * 2 ^ k)
      × (r < 2 ^ k)
      × (bit_or a (2 ^ k - 1) ≡ 2 ^ k - 1 + q * 2 ^ k)
bit_or_ones zero a = (a, 0, omega arith, omega arith, omega (arith, bit_or-zero a))
bit_or_ones (suc k) a =
    let (q, r, e, h, f) = bit_or_ones k (a / 2) in
    let step : bit_or a (2 ^ suc k - 1) ≡ max (a % 2) 1 + 2 * bit_or (a / 2) (2 ^ k - 1) =
      bit_or_step a (2 ^ suc k - 1)
      ∙ ap (λ t. max (a % 2) t + 2 * bit_or (a / 2) ((2 ^ suc k - 1) / 2)) (ones_odd k)
      ∙ ap (λ t. max (a % 2) 1 + 2 * bit_or (a / 2) t) (ones_half k) in
    (
      q,
      a % 2 + 2 * r,
      omega (arith, e, double_pow q k),
      omega (arith, h, pow-suc 2 k),
      omega (arith, step, f, double_pow q k, pow-suc 2 k, one-le-pow k 2 (omega arith)),
    )

-- `&` of two numbers of `k` bits has `k` bits.
pub bit_and-lt : (k a b : ℕ) → a < 2 ^ k → b < 2 ^ k → bit_and a b < 2 ^ k
bit_and-lt zero a b h h' =
    omega (arith, bit_and_ones zero a, ap (bit_and a) {x = b} {y = 0} (omega (arith, h')))
bit_and-lt (suc k) a b h h' = omega (
  arith,
  bit_and_step a b,
  pow-suc 2 k,
  bit_and-lt k (a / 2) (b / 2) (omega (arith, pow-suc 2 k)) (omega (arith, pow-suc 2 k)),
)

-- `&` of a number with itself is the number.
pub bit_and_self : (k a : ℕ) → a < 2 ^ k → bit_and a a ≡ a
bit_and_self zero zero h = refl
bit_and_self zero (suc a) h = absurd (omega arith)
bit_and_self (suc k) a h =
    omega
      (arith, bit_and_step a a, pow-suc 2 k, bit_and_self k (a / 2) (omega (arith, pow-suc 2 k)))
