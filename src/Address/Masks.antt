-- ===== src/Address/Masks.antt =====
-- What the masks of saturn/address.cc do to an address, and that `CountBytes` counts the bits.
use Prim.Native.Nat.{bit_and}
use native.Mathlib.Nat.{pow-suc}
use saturn.Base.Bits.{bit_and_step, bit_and_ones, bit_or_ones, bit_and-lt, bit_and_self}
use saturn.Base.{
  ℕ, zero, suc, ◌+◌, ◌-◌, ◌*◌, ◌/◌, ◌%◌, ◌^◌, ◌≤◌, ◌<◌, ◌≡◌, inl, inr, refl, sym, ap, ◌∙◌, true,
  ◌&&◌, Bool-cases, ==_iff, some, ltb, leb, ◌==◌, le→ltb, arith,
}
use saturn.Address.{
  IPv4Address, made, create_mask, count_bytes_loop, count_bytes, broadcast_address, network_address,
}

-- How many of the lowest `k` bits are ones.
unfoldable pub ones : ℕ → ℕ → ℕ
ones zero v = 0
ones (suc k) v = v % 2 + ones k (v / 2)

ones-le : (k v : ℕ) → ones k v ≤ k
unfolding ones
ones-le zero v = omega arith
ones-le (suc k) v = omega (arith, ones-le k (v / 2))

ones-zero : (k : ℕ) → ones k 0 ≡ 0
unfolding ones
ones-zero zero = refl
ones-zero (suc k) = omega (arith, ones-zero k)

-- `value & (value - 1)` has a one less.
ones-bit_and : (k v : ℕ) → suc v < 2 ^ k → suc (ones k (bit_and (suc v) v)) ≡ ones k (suc v)
unfolding ones
ones-bit_and zero v h = absurd (omega arith)
ones-bit_and (suc k) v h =
    let u = v / 2 in
    let x = bit_and (suc v) v in
    let step = bit_and_step (suc v) v in
    let fits : u < 2 ^ k = omega (arith, pow-suc 2 k) in
    elim (Bool-cases (v % 2 == 0)) [
      | inl y ↦
          let even : v % 2 ≡ 0 = (==_iff (v % 2) 0).0 y in
          let up : suc v / 2 ≡ u = omega arith in
          let half : bit_and (suc v / 2) u ≡ u = ap (λ t. bit_and t u) up ∙ bit_and_self k u fits in
          let low : x / 2 ≡ u = omega (arith, step, half, even) in
          omega (arith, step, half, even, ap (ones k) low, ap (ones k) up)
      | inr n ↦
          let odd : v % 2 ≡ 1 = ground arith in
          let up : suc v / 2 ≡ suc u = omega arith in
          let half : bit_and (suc v / 2) u ≡ bit_and (suc u) u = ap (λ t. bit_and t u) up in
          let low : x / 2 ≡ bit_and (suc u) u = omega (arith, step, half, odd) in
          let less = ones-bit_and k u (omega (arith, pow-suc 2 k)) in
          omega (arith, step, half, odd, less, ap (ones k) low, ap (ones k) up)
    ]

count_bytes_loop-ones :
    (fuel k v : ℕ) → v < 2 ^ k → ones k v ≤ fuel → count_bytes_loop fuel v ≡ ones k v
unfolding count_bytes_loop
count_bytes_loop-ones zero k v h f = omega arith
count_bytes_loop-ones (suc fuel) k zero h f = sym (ones-zero k)
count_bytes_loop-ones (suc fuel) k (suc v) h f =
    let less = ones-bit_and k v h in
    let rest =
      count_bytes_loop-ones fuel k (bit_and (suc v) v) (bit_and-lt k (suc v) v h (omega arith))
        (omega arith) in
    omega (arith, less, rest)

-- `CountBytes` of a value of `width` bits is how many of them are ones.
pub count_bytes-ones : (width v : ℕ) → v < 2 ^ width → count_bytes width v ≡ ones width v
unfolding count_bytes
count_bytes-ones width v h = count_bytes_loop-ones width width v h (ones-le width v)

create_mask-some :
    (bits : ℕ) → 2 ≤ bits → bits ≤ 32 → create_mask 32 bits ≡ some (2 ^ (32 - bits) - 1)
unfolding create_mask
create_mask-some bits h h' =
    let y : (leb bits 32 && ltb (32 - bits) 31) ≡ true = ground arith in rw (y, create_mask) refl

-- The broadcast address of a prefix of 2 to 32 bits has the network's bits of the address, and ones below them.
pub broadcast_address-ones :
    (prefix_len : ℕ) (a : IPv4Address)
    → 2 ≤ prefix_len
    → prefix_len ≤ 32
    → (network : ℕ) × (host : ℕ) × (a.address ≡ host + network * 2 ^ (32 - prefix_len))
      × (host < 2 ^ (32 - prefix_len))
      × (broadcast_address prefix_len a
          ≡ made (record {
            address = 2 ^ (32 - prefix_len) - 1 + network * 2 ^ (32 - prefix_len);
            port = a.port;
          }))
unfolding broadcast_address
broadcast_address-ones prefix_len a h h' =
    let (q, r, e, f, g) = bit_or_ones (32 - prefix_len) a.address in
    (
      q,
      r,
      e,
      f,
      rw (le→ltb 32 prefix_len h', create_mask-some prefix_len h h', broadcast_address)
          (ap (λ n. made (record { address = n; port = a.port })) g),
    )

-- What `networdAddress` gives for a prefix of 2 to 32 bits is not the network's address but the host's part of
-- the address: it keeps the bits below the prefix.
pub network_address-host :
    (prefix_len : ℕ) (a : IPv4Address)
    → 2 ≤ prefix_len
    → prefix_len ≤ 32
    → (network : ℕ) × (host : ℕ) × (a.address ≡ host + network * 2 ^ (32 - prefix_len))
      × (host < 2 ^ (32 - prefix_len))
      × (network_address prefix_len a ≡ made (record { address = host; port = a.port }))
unfolding network_address
network_address-host prefix_len a h h' =
    let (q, e, f) = bit_and_ones (32 - prefix_len) a.address in
    (
      q,
      bit_and a.address (2 ^ (32 - prefix_len) - 1),
      e,
      f,
      rw (le→ltb 32 prefix_len h', create_mask-some prefix_len h h', network_address) refl,
    )
