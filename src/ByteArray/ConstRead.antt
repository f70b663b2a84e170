-- ===== src/ByteArray/ConstRead.antt =====
-- `read(buf, size, position) const` and `toString` of saturn/bytearray.cc.
use native.Mathlib.Decide.{dec_le}
use native.Mathlib.Nat.{mod-lt}
use saturn.Base.{
  ℕ, zero, suc, ◌+◌, ◌-◌, ◌%◌, ◌≤◌, ◌<◌, ◌≡◌, ap, List, [], ◌∷◌, length, take, drop, flatten, ◌==◌,
  pos_of_nonzero, inl, inr, Bool-cases, ==_iff, arith, length-append, length-drop, le→leb, lt→leb,
  le→ltb, take_all, take-append_le, take-append_ge, drop-append_le, drop-append_ge,
}
use saturn.ByteArray.{ByteArray, ok, Node, contents, read_at_loop, read_at_from, read_at, to_string}
use saturn.ByteArray.Chain.{IsUniform, sub_size-le}
use saturn.ByteArray.Invariant.{IsValid}

-- The copy loop of the `const` read.
read_at_loop_lem :
    (b npos : ℕ) (ns : List Node) (size : ℕ)
    → npos < b
    → IsUniform b ns
    → 0 < size
    → npos + size ≤ length (flatten ns)
    → read_at_loop npos ns size ≡ ok (take size (drop npos (flatten ns)))
unfolding read_at_loop
read_at_loop_lem b npos [] size hn u hs fits = absurd (omega arith)
read_at_loop_lem b npos (n ∷ ns) size hn u hs fits =
    rw
      (
        sub_size-le (length n) npos (omega (arith, u.0)),
        drop-append_le npos n (flatten ns) (omega (arith, u.0)),
      )
      (elim (dec_le (npos + size) (length n)) [
        | yes last ↦ rw (
          le→leb size (length n - npos) (omega arith),
          take-append_le size (drop npos n) (flatten ns) (omega (arith, length-drop npos n)),
        )
        | no over ↦ rw (
          lt→leb size (length n - npos) (omega arith),
          read_at_loop_lem b 0 ns (size - (length n - npos)) (omega arith) u.1 (omega arith)
              (omega (arith, u.0, length-append n (flatten ns))),
          take_all (length n - npos) (drop npos n) (omega (arith, length-drop npos n)),
          take-append_ge size (drop npos n) (flatten ns) (omega (arith, length-drop npos n)),
          length-drop npos n,
        )
      ])

read_at_from_lem :
    (b npos : ℕ) (ns : List Node) (size : ℕ)
    → npos < b
    → IsUniform b ns
    → 0 < size
    → npos + size ≤ length (flatten ns)
    → read_at_from ns npos size ≡ ok (take size (drop npos (flatten ns)))
unfolding read_at_from
read_at_from_lem b npos ns zero hn u hs fits = absurd (omega arith)
read_at_from_lem b npos [] (suc k) hn u hs fits = absurd (omega arith)
read_at_from_lem b npos (n ∷ ns) (suc k) hn u hs fits =
    read_at_loop_lem b npos (n ∷ ns) (suc k) hn u hs fits

-- The `const` read starts in the node of the buffer's own position, at the offset of the given one:
-- at byte `length (flatten b.front) + position % b.base_size`, where the bytes before the node of the
-- cursor are counted, and not at byte `position`.
pub read_at_lem :
    (size position : ℕ) (b : ByteArray)
    → IsValid b
    → 0 < size
    → position + size ≤ b.size
    → length (flatten b.front) + position % b.base_size + size ≤ b.capacity
    → read_at size position b
      ≡ ok (take size (drop (length (flatten b.front) + position % b.base_size) (contents b)))
unfolding read_at
read_at_lem size position b v hs h fits =
    let start : ℕ = length (flatten b.front) + position % b.base_size in
    rw
      (
        sub_size-le b.size position (omega arith),
        le→ltb (b.size - position) size (omega arith),
        read_at_from_lem b.base_size (position % b.base_size) b.rest size
            (mod-lt position {m = b.base_size} v.base_pos) v.rest_uniform hs
            (omega (arith, v.total)),
        drop-append_ge start (flatten b.front) (flatten b.rest) (omega arith),
      )
      (ap (λ k. ok (take size (drop k (flatten b.rest)))) (omega arith))

-- `toString` returns the bytes from the position to the size.
pub to_string_lem :
    (b : ByteArray)
    → IsValid b
    → to_string b ≡ ok (take (b.size - b.position) (drop b.position (contents b)))
unfolding to_string
to_string_lem b v =
    rw (sub_size-le b.size b.position v.reached) (elim (Bool-cases (b.size - b.position == 0)) [
      | inl empty ↦ rw (empty, (==_iff (b.size - b.position) 0).0 empty)
      | inr more ↦ rw (
        more,
        read_at_lem (b.size - b.position) b.position b v (pos_of_nonzero (b.size - b.position) more)
            (omega (arith, v.reached)) (omega (arith, v.cursor, v.reached, v.within)),
        v.cursor,
      )
    ])
