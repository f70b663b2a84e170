-- ===== src/ByteArray/RoundTrip.antt =====
-- What `setPosition` and `read` of saturn/bytearray.cc give back after a `write`, and `clear`.
use native.Mathlib.Nat.{mod-eq_of_lt, le_refl}
use saturn.Base.{
  ℕ, ◌-◌, ◌≤◌, ◌<◌, ◌≡◌, refl, ap, ap₂, ◌∙◌, List, [], ◌∷◌, ◌++◌, length, take, drop, flatten,
  arith, length-append, All-append, flatten-append, drop-splice, take-append_le, take-length,
}
use saturn.ByteArray.{ByteArray, ok, Node, contents, root_of, set_position, clear, write, read}
use saturn.ByteArray.Chain.{IsUniform}
use saturn.ByteArray.Invariant.{IsValid}
use saturn.ByteArray.Transfer.{Wrote, write-Wrote, size_after_reached}
use saturn.ByteArray.Reading.{read-DidRead}
use saturn.ByteArray.Seek.{set_position-Moved}

pub length-contents : (b : ByteArray) → IsValid b → length (contents b) ≡ b.capacity
length-contents b v = length-append (flatten b.front) (flatten b.rest) ∙ v.total

-- The bytes from the position of the write on begin with the ones written.
written_bytes :
    (b c : ByteArray) (buf : List ℕ)
    → IsValid b
    → Wrote b buf c
    → take (length buf) (drop b.position (contents c)) ≡ buf
written_bytes b c buf v w =
    rw
      (
        w.bytes,
        drop-splice b.position buf (contents b ++ w.extra) below,
        take-append_le (length buf) buf _ (le_refl _),
      )
      (take-length buf)
  where
    below : b.position ≤ length (contents b ++ w.extra)
    below =
        omega (arith, length-append (contents b) w.extra, length-contents b v, v.reached, v.within)

-- Bytes that are written at a position are read from it: `write` at the position of `b`, back to
-- that position, and `read` of as many bytes all succeed, the buffer of `read` begins with the bytes
-- written, and the position is where the write left it.
pub read-write :
    (memory : ℕ → ℕ) (buf : List ℕ) (b : ByteArray)
    → IsValid b
    → 0 < length buf
    → (c d e : ByteArray) × (image : List ℕ) × (write memory buf b ≡ ok c)
      × (set_position b.position c ≡ ok d)
      × (read (length buf) d ≡ ok (image, e))
      × (take (length buf) image ≡ buf)
      × (e.position ≡ c.position)
      × IsValid e
read-write memory buf b v h =
    let (c, written, w) = write-Wrote memory buf b v in
    let low : b.position ≤ c.capacity =
      omega (arith, w.valid.reached, w.valid.within, w.position) in
    let (d, moved, m) = set_position-Moved b.position c w.valid low in
    let room : length buf ≤ d.size - d.position = omega (
      arith,
      m.size,
      m.position,
      w.valid.reached,
      w.position,
      size_after_reached c.size b.position,
    ) in
    let (image, e, found, r, end) = read-DidRead (length buf) d m.valid h room in
    (
      c,
      d,
      e,
      image,
      written,
      moved,
      found,
      r.right
          ∙ ap₂ (λ p t. take (length buf) (drop p t)) m.position m.bytes
          ∙ written_bytes b c buf v w,
      omega (arith, r.position, m.position, w.position),
      r.valid,
    )

root_of-IsUniform : (b : ℕ) (ns : List Node) → IsUniform b ns → IsUniform b (root_of ns)
root_of-IsUniform b [] u = tt
root_of-IsUniform b (n ∷ ns) u = (u.0, tt)

length-root_of :
    (b : ℕ) (ns : List Node)
    → IsUniform b ns
    → 0 < length (flatten ns)
    → length (flatten (root_of ns)) ≡ b
length-root_of b [] u h = absurd (omega arith)
length-root_of b (n ∷ ns) u h = omega (arith, u.0, length-append n [])

-- `clear` keeps the root node alone, and its buffer is well formed and empty at position 0.
pub clear-IsValid :
    (b : ByteArray)
    → IsValid b
    → IsValid (clear b)
      × ((clear b).size ≡ 0)
      × ((clear b).position ≡ 0)
      × ((clear b).capacity ≡ b.base_size)
unfolding clear
clear-IsValid b v =
    let uniform = All-append _ b.front b.rest v.front_uniform v.rest_uniform in
    let some_bytes : 0 < length (flatten (b.front ++ b.rest)) = omega (
      arith,
      ap length (flatten-append b.front b.rest),
      length-append (flatten b.front) (flatten b.rest),
      v.total,
      v.rooted,
      v.base_pos,
    ) in
    (
      record {
        base_pos = v.base_pos;
        front_uniform = tt;
        rest_uniform = root_of-IsUniform b.base_size (b.front ++ b.rest) uniform;
        total = omega (arith, length-root_of b.base_size (b.front ++ b.rest) uniform some_bytes);
        cursor = omega (arith, mod-eq_of_lt {n = 0} {m = b.base_size} v.base_pos);
        reached = omega arith;
        within = omega arith;
        rooted = omega arith;
      },
      refl,
      refl,
      refl,
    )
