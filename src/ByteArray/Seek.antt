-- ===== src/ByteArray/Seek.antt =====
-- `ByteArray::setPosition` and `clear` of saturn/bytearray.cc, and what is read back after a write.
use native.Mathlib.Decide.{dec_le}
use saturn.Base.{
  ℕ, ◌-◌, ◌≤◌, ◌<◌, ◌≡◌, refl, sym, ap, ◌∙◌, List, [], ◌∷◌, ◌++◌, All-append, length, flatten,
  arith, length-append, flatten-append, lt→ltb, le→ltb,
}
use saturn.ByteArray.{
  ByteArray, ok, out_of_range, Node, Cursor, contents, settle, seek, set_position,
}
use saturn.ByteArray.Chain.{IsUniform, Rests, settle-Rests, past-Rests}
use saturn.ByteArray.Invariant.{IsValid}
use saturn.ByteArray.Transfer.{size_after, size_after_reached, size_after_within}

-- The walk of `setPosition` from the root ends at the node of the position.
seek-Rests :
    (b v : ℕ) (ns : List Node)
    → 0 < b
    → IsUniform b ns
    → 0 < length (flatten ns)
    → v ≤ length (flatten ns)
    → (c : Cursor) × (seek v ns ≡ ok c) × Rests b v (flatten ns) c
unfolding seek
seek-Rests b v [] hb u h fits = absurd (omega arith)
seek-Rests b v (n ∷ ns) hb u h fits = elim (dec_le v (length n)) [
  | yes last ↦ (
    settle v n ns,
    rw (le→ltb (length n) v last),
    settle-Rests b v n ns hb (omega (arith, u.0)) u.0 u.1,
  )
  | no over ↦
      let (c, e, r) =
        seek-Rests b (v - length n) ns hb u.1 (omega (arith, length-append n (flatten ns)))
          (omega (arith, length-append n (flatten ns))) in
      (
        (n ∷ c.0, c.1),
        rw (lt→ltb (length n) v (omega arith), e),
        past-Rests b (v - length n) v n (flatten ns) (n ++ flatten ns) c u.0 (omega (arith, u.0))
            refl r,
      )
]

-- `c` is `b` at the position `v`, with the same bytes.
pub record Moved (b : ByteArray) (v : ℕ) (c : ByteArray) : Type 0 where
  pub valid : IsValid c
  pub same_base : c.base_size ≡ b.base_size
  pub same_endian : c.endian ≡ b.endian
  pub same_capacity : c.capacity ≡ b.capacity
  pub position : c.position ≡ v
  pub size : c.size ≡ size_after b.size v
  pub bytes : contents c ≡ contents b

-- `setPosition` succeeds up to the capacity.
pub set_position-Moved :
    (v : ℕ) (b : ByteArray)
    → IsValid b
    → v ≤ b.capacity
    → (c : ByteArray) × (set_position v b ≡ ok c) × Moved b v c
unfolding set_position
set_position-Moved v b ok_b h =
    let whole : length (flatten (b.front ++ b.rest)) ≡ b.capacity =
      ap length (flatten-append b.front b.rest)
      ∙ length-append (flatten b.front) (flatten b.rest)
      ∙ ok_b.total in
    let (r, e, m) =
      seek-Rests b.base_size v (b.front ++ b.rest) ok_b.base_pos
        (All-append _ b.front b.rest ok_b.front_uniform ok_b.rest_uniform)
        (omega (arith, ok_b.rooted, ok_b.base_pos)) (omega arith) in
    let bytes : flatten r.0 ++ flatten r.1 ≡ contents b = m.same ∙ flatten-append b.front b.rest in
    (
      record b { position = v; size = size_after b.size v; front = r.0; rest = r.1 },
      rw (le→ltb b.capacity v h, e),
      record {
        valid = record {
          base_pos = ok_b.base_pos;
          front_uniform = m.before;
          rest_uniform = m.behind;
          total =
              sym (length-append (flatten r.0) (flatten r.1))
              ∙ ap length bytes
              ∙ length-append (flatten b.front) (flatten b.rest)
              ∙ ok_b.total;
          cursor = m.moved;
          reached = (size_after_reached b.size v).0;
          within = size_after_within b.size v b.capacity ok_b.within h;
          rooted = ok_b.rooted;
        };
        same_base = refl;
        same_endian = refl;
        same_capacity = refl;
        position = refl;
        size = refl;
        bytes = bytes;
      },
    )

-- Beyond the capacity it throws.
pub set_position_beyond : (v : ℕ) (b : ByteArray) → b.capacity < v → set_position v b ≡ out_of_range
unfolding set_position
set_position_beyond v b h = rw (lt→ltb b.capacity v h)
