-- ===== src/ByteArray/Transfer.antt =====
-- `ByteArray::write` of saturn/bytearray.cc against a flat sequence of bytes.
use mathlib.Core.List.{append_assoc, append-nil}
use native.Mathlib.Nat.{mod-lt, div-add-mod', mul-add-mod_self_right}
use saturn.Base.{
  ℕ, ◌+◌, ◌*◌, ◌/◌, ◌%◌, ◌≤◌, ◌≡◌, refl, sym, ap, ◌∙◌, List, [], ◌∷◌, ◌++◌, All-append, length,
  take, drop, flatten, splice, ltb, if◌then◌else◌, arith, length-append, flatten-append,
  length-splice, splice_behind, le→ltb, drop-append_ge, take-append-drop, ap₂,
}
use saturn.ByteArray.{ByteArray, ok, Cursor, contents, add_capacity, write}
use saturn.ByteArray.Chain.{Rests, write_loop-Rests}
use saturn.ByteArray.Invariant.{IsValid, add_capacity-Grown}

-- Moving on by `k` bytes inside the chain keeps the cursor at the position: `f` and `f'` are the bytes
-- before the node of the cursor, before the move and in it.
cursor_moves :
    (b pos f f' k : ℕ)
    → f + pos % b ≡ pos
    → f' + (pos % b + k) % b ≡ pos % b + k
    → f + f' + (pos + k) % b ≡ pos + k
cursor_moves b pos f f' k h h' = omega (
  arith,
  ap (λ (t : ℕ). t % b) {x = pos + k} {y = pos / b * b + (pos % b + k)}
      (omega (arith, div-add-mod' pos b)),
  mul-add-mod_self_right (pos / b) b (pos % b + k),
)

-- The buffer after `c` moved on by `k` bytes to the cursor `r`, over nodes that hold `bytes` now.
pub moved-IsValid :
    (c : ByteArray) (k size' : ℕ) (bytes : List ℕ) (r : Cursor)
    → IsValid c
    → length bytes ≡ length (flatten c.rest)
    → Rests c.base_size (c.position % c.base_size + k) bytes r
    → c.position + k ≤ size'
    → size' ≤ c.capacity
    → IsValid
        (record c { position = c.position + k; size = size'; front = c.front ++ r.0; rest = r.1 })
moved-IsValid c k size' bytes r v e m reach fit = record {
  base_pos = v.base_pos;
  front_uniform = All-append _ c.front r.0 v.front_uniform m.before;
  rest_uniform = m.behind;
  total =
      rw (flatten-append c.front r.0, length-append (flatten c.front) (flatten r.0))
        (omega (arith, v.total, e, ap length m.same, length-append (flatten r.0) (flatten r.1)));
  cursor =
      rw (flatten-append c.front r.0, length-append (flatten c.front) (flatten r.0))
        (cursor_moves c.base_size c.position (length (flatten c.front)) (length (flatten r.0)) k
          v.cursor m.moved);
  reached = reach;
  within = fit;
  rooted = v.rooted;
}

-- The bytes before the cursor's node, and those of the chain from there on, at the position.
pub drop-contents :
    (b : ByteArray)
    → IsValid b
    → drop b.position (contents b) ≡ drop (b.position % b.base_size) (flatten b.rest)
drop-contents b v =
    drop-append_ge b.position (flatten b.front) (flatten b.rest) (omega (arith, v.cursor))
    ∙ ap (λ k. drop k (flatten b.rest)) (omega (arith, v.cursor))

pub splice-contents :
    (b : ByteArray) (buf : List ℕ)
    → IsValid b
    → splice b.position buf (contents b)
      ≡ flatten b.front ++ splice (b.position % b.base_size) buf (flatten b.rest)
splice-contents b buf v =
    ap (λ k. splice k buf (contents b)) {x = b.position}
      {y = length (flatten b.front) + b.position % b.base_size} (sym v.cursor)
    ∙ splice_behind (b.position % b.base_size) buf (flatten b.front) (flatten b.rest)

-- `c` is `b` after `buf` was written at its position: `buf` stands there in the bytes of the chain,
-- which may have grown by `extra`, and all other bytes are kept.
pub record Wrote (b : ByteArray) (buf : List ℕ) (c : ByteArray) : Type 0 where
  pub valid : IsValid c
  pub same_base : c.base_size ≡ b.base_size
  pub same_endian : c.endian ≡ b.endian
  pub position : c.position ≡ b.position + length buf
  pub size :
      c.size ≡ (if ltb b.size (b.position + length buf) then b.position + length buf else b.size)
  pub extra : List ℕ
  pub bytes : contents c ≡ splice b.position buf (contents b ++ extra)

splice-nil : (n : ℕ) (xs : List ℕ) → splice n [] (xs ++ []) ≡ xs
splice-nil n xs =
    simp append-nil
      (ap (λ k. take n xs ++ drop k xs) {x = n + 0} {y = n} (omega arith) ∙ take-append-drop n xs)

abbrev pub size_after : ℕ → ℕ → ℕ
size_after size end = if ltb size end then end else size

pub size_after_reached : (size end : ℕ) → (end ≤ size_after size end) × (size ≤ size_after size end)
size_after_reached size end = ground arith

pub size_after_within : (size end cap : ℕ) → size ≤ cap → end ≤ cap → size_after size end ≤ cap
size_after_within size end cap h k = ground arith

-- `write` on a well-formed buffer always succeeds, and leaves it as `Wrote` says, for every memory that
-- new nodes hold.
pub write-Wrote :
    (memory : ℕ → ℕ) (buf : List ℕ) (b : ByteArray)
    → IsValid b
    → (c : ByteArray) × (write memory buf b ≡ ok c) × Wrote b buf c
unfolding write
write-Wrote memory [] b v = (
  b,
  refl,
  record {
    valid = v;
    same_base = refl;
    same_endian = refl;
    position = omega arith;
    size = rw (le→ltb b.size (b.position + 0) (omega (arith, v.reached)));
    extra = [];
    bytes = sym (splice-nil b.position (contents b));
  },
)
write-Wrote memory (x ∷ xs) b v =
    let buf : List ℕ = x ∷ xs in
    let g = add_capacity-Grown memory (length buf) b v in
    let c : ByteArray = add_capacity memory (length buf) b in
    let npos : ℕ = c.position % c.base_size in
    let (r, e, rests) =
      write_loop-Rests c.base_size npos c.rest buf
        (mod-lt c.position {m = c.base_size} g.valid.base_pos) g.valid.rest_uniform (omega arith)
        (omega (arith, g.valid.total, g.valid.cursor, g.room, g.same_position)) in
    (
      record c {
        position = c.position + length buf;
        size = size_after c.size (c.position + length buf);
        front = c.front ++ r.0;
        rest = r.1;
      },
      rw e,
      record {
        valid =
            moved-IsValid c (length buf) (size_after c.size (c.position + length buf))
              (splice npos buf (flatten c.rest)) r g.valid
              (length-splice npos buf (flatten c.rest)
                (omega (arith, g.valid.total, g.valid.cursor, g.room, g.same_position)))
              rests (size_after_reached c.size (c.position + length buf)).0
              (size_after_within c.size (c.position + length buf) c.capacity g.valid.within
                (omega (arith, g.room, g.same_position)));
        same_base = g.same_base;
        same_endian = g.same_endian;
        position = omega (arith, g.same_position);
        size = ap₂ (λ s p. size_after s (p + length buf)) g.same_size g.same_position;
        extra = g.extra;
        bytes = rw flatten-append (
            append_assoc (flatten c.front) (flatten r.0) (flatten r.1)
            ∙ ap (λ t. flatten c.front ++ t) rests.same
            ∙ sym (splice-contents c buf g.valid)
            ∙ ap₂ (λ p t. splice p buf t) g.same_position g.kept);
      },
    )
