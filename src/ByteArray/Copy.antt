-- ===== src/ByteArray/Copy.antt =====
-- The copy loop of `ByteArray::read` in saturn/bytearray.cc.
use native.Mathlib.Nat.{mod-eq_of_lt, add-mod_left}
use native.Mathlib.Decide.{dec_le}
use saturn.Base.{
  ℕ, ◌+◌, ◌-◌, ◌%◌, ◌≤◌, ◌<◌, ◌≡◌, refl, ap, ◌∙◌, List, [], ◌∷◌, ◌++◌, length, take, drop, flatten,
  arith, length-append, take_all, take-append_le, drop-append_le, length-drop, take-append_ge,
  le→leb, lt→leb,
}
use saturn.ByteArray.{Outcome, ok, Node, ◌>>=◌, settle, read_loop}
use saturn.ByteArray.Chain.{sub_size-le, IsUniform, Rests, settle-Rests, past-Rests}

-- The bytes that the copy loop of `read` moves for a call of `size` bytes at `npos`: the ones asked
-- for, and behind them all that is left of the last node.
pub record Copied (b npos size : ℕ) (bytes image : List ℕ) : Type 0 where
  pub right : take size image ≡ take size (drop npos bytes)
  pub covers : size ≤ length image
  pub less : length image < size + b
  pub to_end : (npos + length image) % b ≡ 0

abbrev pub front_of_read :
    Node
    → Outcome (List ℕ × List Node × List Node)
    → List ℕ
    → Outcome (List ℕ × List Node × List Node)
front_of_read n r copied = r >>= λ r. ok (copied ++ r.0, n ∷ r.1, r.2)

rest_of_node :
    (npos : ℕ) (n : Node) → npos ≤ length n → take (length n - npos) (drop npos n) ≡ drop npos n
rest_of_node npos n h = take_all (length n - npos) (drop npos n) (omega (arith, length-drop npos n))

read_loop_last :
    (npos : ℕ) (n : Node) (ns : List Node) (size : ℕ)
    → npos + size ≤ length n
    → read_loop npos (n ∷ ns) size
      ≡ ok (drop npos n, (settle (npos + size) n ns).0, (settle (npos + size) n ns).1)
unfolding read_loop
read_loop_last npos n ns size h = rw (
  sub_size-le (length n) npos (omega arith),
  le→leb size (length n - npos) (omega arith),
  rest_of_node npos n (omega arith),
)

read_loop_more :
    (npos : ℕ) (n : Node) (ns : List Node) (size : ℕ)
    → npos ≤ length n
    → length n < npos + size
    → read_loop npos (n ∷ ns) size
      ≡ front_of_read n (read_loop 0 ns (size - (length n - npos))) (drop npos n)
unfolding read_loop
read_loop_more npos n ns size h k = rw (
  sub_size-le (length n) npos h,
  lt→leb size (length n - npos) (omega arith),
  rest_of_node npos n h,
)

Copied-last :
    (b npos size : ℕ) (n : Node) (ns : List Node)
    → length n ≡ b
    → npos + size ≤ length n
    → 0 < size
    → Copied b npos size (n ++ flatten ns) (drop npos n)
Copied-last b npos size n ns e h hs = record {
  right = rw (
    drop-append_le npos n (flatten ns) (omega arith),
    take-append_le size (drop npos n) (flatten ns) (omega (arith, length-drop npos n)),
  );
  covers = omega (arith, length-drop npos n);
  less = omega (arith, length-drop npos n);
  to_end =
      ap (λ (k : ℕ). k % b) {x = npos + length (drop npos n)} {y = b + 0}
        (omega (arith, length-drop npos n))
      ∙ add-mod_left b 0
      ∙ mod-eq_of_lt (omega arith);
}

Copied-more :
    (b npos size : ℕ) (n : Node) (ns : List Node) (image : List ℕ)
    → length n ≡ b
    → npos ≤ length n
    → length n < npos + size
    → Copied b 0 (size - (length n - npos)) (flatten ns) image
    → Copied b npos size (n ++ flatten ns) (drop npos n ++ image)
Copied-more b npos size n ns image e h k c = record {
  right =
      rw
        (
          drop-append_le npos n (flatten ns) h,
          take-append_ge size (drop npos n) image (omega (arith, length-drop npos n)),
          take-append_ge size (drop npos n) (flatten ns) (omega (arith, length-drop npos n)),
          length-drop npos n,
        )
        (ap (λ t. drop npos n ++ t) c.right);
  covers = omega (arith, length-append (drop npos n) image, length-drop npos n, c.covers);
  less = omega (arith, length-append (drop npos n) image, length-drop npos n, c.less);
  to_end =
      ap (λ (k : ℕ). k % b) {x = npos + length (drop npos n ++ image)} {y = b + (0 + length image)}
        (omega (arith, length-append (drop npos n) image, length-drop npos n))
      ∙ add-mod_left b (0 + length image)
      ∙ c.to_end;
}

-- The copy loop of `read` leaves the bytes of the chain and moves the cursor as `write` does.
pub read_loop-Rests :
    (b npos : ℕ) (ns : List Node) (size : ℕ)
    → npos < b
    → IsUniform b ns
    → 0 < size
    → npos + size ≤ length (flatten ns)
    → (r : List ℕ × List Node × List Node) × (read_loop npos ns size ≡ ok r)
      × Rests b (npos + size) (flatten ns) (r.1, r.2)
      × Copied b npos size (flatten ns) r.0
read_loop-Rests b npos [] size hn u hs fits = absurd (omega arith)
read_loop-Rests b npos (n ∷ ns) size hn u hs fits = elim (dec_le (npos + size) (length n)) [
  | yes last ↦ (
    (drop npos n, (settle (npos + size) n ns).0, (settle (npos + size) n ns).1),
    read_loop_last npos n ns size last,
    settle-Rests b (npos + size) n ns (omega arith) (omega arith) u.0 u.1,
    Copied-last b npos size n ns u.0 last hs,
  )
  | no over ↦
      let ncap : ℕ = length n - npos in
      let (r, e, rests, copied) =
        read_loop-Rests b 0 ns (size - ncap) (omega arith) u.1 (omega arith)
          (omega (arith, length-append n (flatten ns))) in
      (
        (drop npos n ++ r.0, n ∷ r.1, r.2),
        read_loop_more npos n ns size (omega arith) (omega arith) ∙ rw e,
        past-Rests b (0 + (size - ncap)) (npos + size) n (flatten ns) (n ++ flatten ns) (r.1, r.2)
            u.0 (omega arith) refl rests,
        Copied-more b npos size n ns r.0 u.0 (omega arith) (omega arith) copied,
      )
]
