-- ===== src/Values/Loops.antt =====
-- What the `write…` functions of saturn/bytearray.cc append and what the `read…` functions take off.
use native.Mathlib.Nat.{pow-suc, mod-lt}
use native.Mathlib.Decide.{dec_lt}
use saturn.Base.{
  ℕ, zero, suc, ◌+◌, ◌*◌, ◌/◌, ◌%◌, ◌^◌, ◌<◌, ◌≡◌, ap, subst, ◌∙◌, List, [], ◌∷◌, ◌++◌, length,
  arith, lt→ltb, le→ltb, le→leb, lt→leb, leb, sym, take_all, length-append, true, ◌≢◌, ◌-◌, ◌≤◌,
}
use saturn.ByteArray.{ByteArray, ok, fault, Endian}
use saturn.ByteArray.Invariant.{IsValid}
use saturn.ByteArray.Stream.{unread, Advanced, write-Appended, read-Advanced, length-unread}
use saturn.ByteArray.Reading.{read-DidRead, read_exact, read_overruns}
use saturn.Codec.{decode_fixed}
use saturn.Codec.Fixed.{wire, encode_fixed-wire, decode_fixed-wire, length-wire, of_memory-byte}
use saturn.Codec.Varint.{
  groups, varint-groups, varint_round_last, varint_round_more, group_split, group_below,
}
use saturn.Values.{write_fixed, write_varint, read_local, read_fuint8, read_fixed, read_varint}
use saturn.Values.RoundTrip.{Writes, Reads}

module _ (host : Endian) (memory : ℕ → ℕ) where
  pub write_fixed-Writes : (k v : ℕ) → Writes (write_fixed host memory k v) (λ e. wire e k v)
  unfolding write_fixed
  write_fixed-Writes k v b ok_b at_end =
      rw (encode_fixed-wire host b.endian k v)
        (write-Appended memory (wire b.endian k v) b ok_b at_end)

  pub write_varint-Writes :
      (k v : ℕ) → v < 128 ^ suc k → Writes (write_varint host memory (suc k) v) (λ e. groups k v)
  unfolding write_varint
  write_varint-Writes k v h b ok_b at_end =
      rw (varint-groups k v h, write_varint) (write-Appended memory (groups k v) b ok_b at_end)

unread-reaches :
    (b : ByteArray) (xs ys : List ℕ)
    → IsValid b
    → unread b ≡ xs ++ ys
    → length xs ≤ b.size - b.position
unread-reaches b xs ys v e = omega (arith, length-unread b v, ap length e, length-append xs ys)

-- A read that ends at the end of a node fills its variable just as far.
pub read_local-exact :
    (b : ByteArray) (xs ys : List ℕ)
    → IsValid b
    → 0 < length xs
    → (b.position + length xs) % b.base_size ≡ 0
    → unread b ≡ xs ++ ys
    → (c : ByteArray) × (read_local (length xs) b ≡ ok (xs, c)) × Advanced b ys c
unfolding read_local
read_local-exact b xs ys v h end e =
    let (image, c, found, right, r) = read-Advanced b xs ys v h e in
    let exact : length image ≡ length xs =
      read_exact (length xs) b v h (unread-reaches b xs ys v e) end found in
    let whole : image ≡ xs = sym (take_all (length xs) image (omega (arith, exact))) ∙ right in
    let fits : leb (length image) (length xs) ≡ true =
      le→leb (length image) (length xs) (omega (arith, exact)) in
    (c, rw (found, fits) (ap (λ i. ok (i, c)) whole), r)

-- One that ends inside a node stores bytes behind it.
pub read_local-over :
    (k : ℕ) (b : ByteArray) (xs ys : List ℕ)
    → IsValid b
    → 0 < k
    → length xs ≡ k
    → (b.position + k) % b.base_size ≢ 0
    → unread b ≡ xs ++ ys
    → read_local k b ≡ fault
unfolding read_local
read_local-over k b xs ys v h n over e =
    let reach : k ≤ b.size - b.position = omega (arith, n, unread-reaches b xs ys v e) in
    let (image, c, found, did, end) = read-DidRead k b v h reach in
    rw (found, lt→leb (length image) k (read_overruns k b v h reach over found))

pub node_of_one : (b : ByteArray) (n : ℕ) → IsValid b → b.base_size ≡ 1 → n % b.base_size ≡ 0
node_of_one b n v one =
    let small : n % b.base_size < b.base_size = mod-lt n {m = b.base_size} v.base_pos in
    omega (arith, small, one)

module _ (host : Endian) where
  -- A value of `k` bytes that ends at the end of a node.
  pub read_fixed_next :
      (k v : ℕ) (b : ByteArray) (ys : List ℕ)
      → 0 < k
      → v < 256 ^ k
      → IsValid b
      → (b.position + k) % b.base_size ≡ 0
      → unread b ≡ wire b.endian k v ++ ys
      → (c : ByteArray) × (read_fixed host k b ≡ ok (v, c)) × Advanced b ys c
  unfolding read_fixed
  read_fixed_next k v b ys hk h ok_b end e =
      let n : length (wire b.endian k v) ≡ k = length-wire b.endian k v in
      let (c, found, r) =
        read_local-exact b (wire b.endian k v) ys ok_b (omega arith)
          (ap (λ m. (b.position + m) % b.base_size) n ∙ end) e in
      let found' : read_local k b ≡ ok (wire b.endian k v, c) =
        subst (λ m. read_local m b ≡ ok (wire b.endian k v, c)) n found in
      (
        c,
        rw found' (
            ap (λ o. ok (decode_fixed host o k (wire b.endian k v), c)) r.same_endian
            ∙ ap (λ u. ok (u, c)) (decode_fixed-wire host b.endian k v h)),
        r,
      )

  pub read_fixed-Reads :
      (k v : ℕ) → 0 < k → v < 256 ^ k → Reads (read_fixed host k) (λ e. wire e k v) v
  read_fixed-Reads k v hk h b ys one ok_b e =
      read_fixed_next k v b ys hk h ok_b (node_of_one b (b.position + k) ok_b one) e

  -- The next byte of the stream.
  pub read_fuint8_next :
      (b : ByteArray) (x : ℕ) (ys : List ℕ)
      → b.base_size ≡ 1
      → IsValid b
      → unread b ≡ x ∷ ys
      → (c : ByteArray) × (read_fuint8 host b ≡ ok (x, c)) × Advanced b ys c
  unfolding read_fuint8
  read_fuint8_next b x ys one ok_b e =
      let (c, found, r) =
        read_local-exact b (x ∷ []) ys ok_b (omega arith) (node_of_one b (b.position + 1) ok_b one)
          e in
      (c, rw found (ap (λ (u : ℕ). ok (u, c)) (of_memory-byte host x)), r)

  read_varint_last :
      (w rounds i result v : ℕ) (b : ByteArray) (ys : List ℕ)
      → v < 128
      → result < 2 ^ i
      → result + v * 2 ^ i < 2 ^ w
      → b.base_size ≡ 1
      → IsValid b
      → unread b ≡ v ∷ ys
      → (c : ByteArray) × (read_varint host w (suc rounds) i result b ≡ ok (result + v * 2 ^ i, c))
        × Advanced b ys c
  unfolding read_varint
  read_varint_last w rounds i result v b ys small hr fits one ok_b e =
      let (c, found, r) = read_fuint8_next b v ys one ok_b e in
      (c, rw (found, lt→ltb v 128 small, varint_round_last w i result v small hr (omega arith)), r)

  -- The loop reads the groups of a value and puts them together, from any round on.
  pub read_varint-groups :
      (w k rounds i result v : ℕ) (b : ByteArray) (ys : List ℕ)
      → k < rounds
      → v < 128 ^ suc k
      → result < 2 ^ i
      → result + v * 2 ^ i < 2 ^ w
      → b.base_size ≡ 1
      → IsValid b
      → unread b ≡ groups k v ++ ys
      → (c : ByteArray) × (read_varint host w rounds i result b ≡ ok (result + v * 2 ^ i, c))
        × Advanced b ys c
  unfolding read_varint groups
  read_varint-groups w k zero i result v b ys hk hv hr fits one ok_b e = absurd (omega arith)
  read_varint-groups w zero (suc rounds) i result v b ys hk hv hr fits one ok_b e =
      read_varint_last w rounds i result v b ys (omega arith) hr fits one ok_b e
  read_varint-groups w (suc k) (suc rounds) i result v b ys hk hv hr fits one ok_b e =
      elim (dec_lt v 128) [
        | yes small ↦
            read_varint_last w rounds i result v b ys small hr fits one ok_b
              (rw (lt→ltb v 128 small) at e)
        | no big_value ↦
            let g : ℕ = v % 128 in
            let split = group_split v i in
            let e' : unread b ≡ (g + 128) ∷ (groups k (v / 128) ++ ys) =
              rw (le→ltb v 128 (omega arith)) at e in
            let (c, found, r) =
              read_fuint8_next b (g + 128) (groups k (v / 128) ++ ys) one ok_b e' in
            let (d, found', r') =
              read_varint-groups w k rounds (i + 7) (result + g * 2 ^ i) (v / 128) c ys
                (omega arith) (omega (arith, pow-suc 128 (suc k)))
                (group_below i result g (omega arith) hr) (omega arith) (r.same_base ∙ one) r.valid
                r.left in
            (
              d,
              rw
                  (
                    found,
                    le→ltb (g + 128) 128 (omega arith),
                    varint_round_more w i result g (omega arith) hr (omega arith),
                    found',
                  )
                  (ap (λ (u : ℕ). ok (u, d)) (omega arith)),
              record {
                valid = r'.valid;
                same_base = r'.same_base ∙ r.same_base;
                same_endian = r'.same_endian ∙ r.same_endian;
                left = r'.left;
              },
            )
      ]
