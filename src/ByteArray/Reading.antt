-- ===== src/ByteArray/Reading.antt =====
-- `ByteArray::read` of saturn/bytearray.cc against a flat sequence of bytes.
use mathlib.Core.List.{append_assoc}
use native.Mathlib.Nat.{mod-lt, mod-eq_of_lt}
use saturn.Base.{
  ℕ, zero, suc, ◌+◌, ◌-◌, ◌%◌, ◌≤◌, ◌<◌, ◌≡◌, refl, sym, ap, ◌∙◌, List, [], ◌∷◌, ◌++◌, length, take,
  drop, flatten, arith, length-append, flatten-append, le→ltb, lt→ltb,
}
use saturn.ByteArray.{
  ByteArray, Outcome, ok, out_of_range, fault, Node, contents, read_loop, read_from, read,
}
use saturn.ByteArray.Chain.{sub_size-le, IsUniform}
use saturn.ByteArray.Copy.{read_loop-Rests}
use saturn.ByteArray.Invariant.{IsValid, rest_at_end}
use native.Mathlib.Decide.{dec_lt}
use saturn.Base.{◌≢◌}
use saturn.ByteArray.Transfer.{moved-IsValid, drop-contents}
use native.Mathlib.Nat.{mod-add-mod}

-- `c` is `b` after `size` bytes were read: nothing but the position and the cursor moved, and `image`
-- is what was copied.
pub record DidRead (b : ByteArray) (size : ℕ) (image : List ℕ) (c : ByteArray) : Type 0 where
  pub valid : IsValid c
  pub same_base : c.base_size ≡ b.base_size
  pub same_endian : c.endian ≡ b.endian
  pub position : c.position ≡ b.position + size
  pub same_size : c.size ≡ b.size
  pub bytes : contents c ≡ contents b
  pub right : take size image ≡ take size (drop b.position (contents b))
  pub covers : size ≤ length image
  pub less : length image < size + b.base_size

-- A `read` of more bytes than are left between the position and the size throws
-- `std::out_of_range`, for a valid buffer.
pub read_short :
    (size : ℕ) (b : ByteArray) → IsValid b → b.size - b.position < size → read size b ≡ out_of_range
unfolding read
read_short size b v h =
    rw (sub_size-le b.size b.position v.reached, lt→ltb (b.size - b.position) size h)

read_enough :
    (size : ℕ) (b : ByteArray)
    → IsValid b
    → size ≤ b.size - b.position
    → read size b ≡ read_from b.rest size b
unfolding read
read_enough size b v h =
    rw (sub_size-le b.size b.position v.reached, le→ltb (b.size - b.position) size h)

read_from_step :
    (ns : List Node) (k : ℕ) (b : ByteArray) (r : List ℕ × List Node × List Node)
    → 0 < length (flatten ns)
    → read_loop (b.position % b.base_size) ns (suc k) ≡ ok r
    → read_from ns (suc k) b
      ≡ ok (r.0, record b { position = b.position + suc k; front = b.front ++ r.1; rest = r.2 })
unfolding read_from
read_from_step [] k b r h e = absurd (omega arith)
read_from_step (n ∷ ns) k b r h e = rw e

read_to_end : (b pos n : ℕ) → (pos % b + n) % b ≡ 0 → (pos + n) % b ≡ 0
read_to_end b pos n h = sym (mod-add-mod pos b n) ∙ h

abbrev image_of : Outcome (List ℕ × ByteArray) → List ℕ
image_of (ok (image, c)) = image
image_of out_of_range = []
image_of fault = []

-- On a well-formed buffer a read of one or more bytes, no more than are left of the data, succeeds and leaves
-- the buffer as `DidRead` says, and what it copies ends at the end of a node.
pub read-DidRead :
    (size : ℕ) (b : ByteArray)
    → IsValid b
    → 0 < size
    → size ≤ b.size - b.position
    → (image : List ℕ) × (c : ByteArray) × (read size b ≡ ok (image, c))
      × DidRead b size image c
      × ((b.position + length image) % b.base_size ≡ 0)
read-DidRead zero b v hs h = absurd (omega arith)
read-DidRead (suc k) b v hs h =
    let npos : ℕ = b.position % b.base_size in
    let fits : npos + suc k ≤ length (flatten b.rest) =
      omega (arith, v.total, v.cursor, v.within, v.reached) in
    let (r, e, rests, copied) =
      read_loop-Rests b.base_size npos b.rest (suc k)
        (mod-lt b.position {m = b.base_size} v.base_pos) v.rest_uniform hs fits in
    (
      r.0,
      record b { position = b.position + suc k; front = b.front ++ r.1; rest = r.2 },
      read_enough (suc k) b v h ∙ read_from_step b.rest k b r (omega arith) e,
      record {
        valid =
            moved-IsValid b (suc k) b.size (flatten b.rest) (r.1, r.2) v refl rests
              (omega (arith, v.reached)) v.within;
        same_base = refl;
        same_endian = refl;
        position = refl;
        same_size = refl;
        bytes = rw flatten-append (
            append_assoc (flatten b.front) (flatten r.1) (flatten r.2)
            ∙ ap (λ t. flatten b.front ++ t) rests.same);
        right = copied.right ∙ ap (take (suc k)) (sym (drop-contents b v));
        covers = copied.covers;
        less = copied.less;
      },
      read_to_end b.base_size b.position (length r.0) copied.to_end,
    )

-- `read` also copies what is left of the last node: unless the read ends exactly at the end of a
-- node, bytes are stored behind the caller's buffer.
pub read_overruns :
    (size : ℕ) (b : ByteArray) {image : List ℕ} {c : ByteArray}
    → IsValid b
    → 0 < size
    → size ≤ b.size - b.position
    → (b.position + size) % b.base_size ≢ 0
    → read size b ≡ ok (image, c)
    → size < length image
read_overruns size b {image} {c} v hs h inside e =
    let (image', c', e', did, end) = read-DidRead size b v hs h in
    let same : image ≡ image' = ap image_of (sym e ∙ e') in
    let covered : size ≤ length image = rw same did.covers in
    elim (dec_lt size (length image)) [
      | yes longer ↦ longer
      | no exact ↦ absurd (
          inside (
            ap (λ (k : ℕ). (b.position + k) % b.base_size) {x = size} {y = length image'}
              (omega (arith, ap length same))
            ∙ end))
    ]

-- And a read that ends at the end of a node copies no byte behind those asked for.
pub read_exact :
    (size : ℕ) (b : ByteArray) {image : List ℕ} {c : ByteArray}
    → IsValid b
    → 0 < size
    → size ≤ b.size - b.position
    → (b.position + size) % b.base_size ≡ 0
    → read size b ≡ ok (image, c)
    → length image ≡ size
read_exact size b {image} {c} v hs h at_end e =
    let (image', c', e', did, end) = read-DidRead size b v hs h in
    let same : image ≡ image' = ap image_of (sym e ∙ e') in
    let d : ℕ = length image' - size in
    let moved : (b.position + size + d) % b.base_size ≡ 0 =
      ap (λ k. k % b.base_size) {x = b.position + size + d} {y = b.position + length image'}
        (omega (arith, did.covers))
      ∙ end in
    let none_over : d ≡ 0 =
      sym (mod-eq_of_lt (omega (arith, did.less, did.covers, v.base_pos)))
      ∙ ap (λ k. k % b.base_size) {x = d} {y = 0 + d} (omega arith)
      ∙ ap (λ k. (k + d) % b.base_size) (sym at_end)
      ∙ mod-add-mod (b.position + size) b.base_size d
      ∙ moved in
    ap length same ∙ omega (arith, none_over, did.covers)

read_from_null :
    (ns : List Node) (b : ByteArray)
    → 0 < b.base_size
    → IsUniform b.base_size ns
    → length (flatten ns) ≡ 0
    → read_from ns 0 b ≡ fault
unfolding read_from
read_from_null [] b hb u e = refl
read_from_null (n ∷ ns) b hb u e = absurd (omega (arith, u.0, length-append n (flatten ns)))

-- A read of no bytes uses the null `m_cur` where the position is at the end of the capacity.
pub read_zero_at_end : (b : ByteArray) → IsValid b → b.position ≡ b.capacity → read 0 b ≡ fault
unfolding read_from
read_zero_at_end b v full =
    read_enough 0 b v (omega arith)
    ∙ read_from_null b.rest b v.base_pos v.rest_uniform (
        rest_at_end b.base_size b.position (length (flatten b.front)) b.rest v.base_pos
          v.rest_uniform v.cursor (omega (arith, v.total)))
