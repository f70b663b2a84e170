-- ===== src/ByteArray/Chain.antt =====
-- The loops of saturn/bytearray.cc over the chain of nodes, read as operations on its bytes.
use mathlib.Core.List.{append_assoc, append-nil}
use native.Mathlib.Nat.{mod-eq_of_lt, add-mod_left}
use native.Mathlib.Decide.{dec_le}
use saturn.Base.{
  ℕ, ◌+◌, ◌-◌, ◌%◌, ◌≤◌, ◌<◌, ◌≡◌, refl, sym, ap, ◌∙◌, inl, inr, List, [], ◌∷◌, ◌++◌, All, length,
  take, drop, splice, flatten, ◌==◌, arith, Bool-cases, length-append, length-splice, splice_within,
  splice_across, length-drop, length-take_le, take-append-drop, ==_iff, le→leb, lt→leb,
}
use saturn.ByteArray.{ok, Node, Cursor, sub_size, past, settle, write_loop}

pub sub_size-le : (a b : ℕ) → b ≤ a → sub_size a b ≡ a - b
sub_size-le a b h = ground arith

-- Every node holds `b` bytes.
abbrev pub IsUniform : ℕ → List Node → Type 0
IsUniform b = All (λ n. length n ≡ b)

-- The cursor `c` is `k` bytes into the chain: behind the nodes that end there or before.
pub record Rests (b k : ℕ) (bytes : List ℕ) (c : Cursor) : Type 0 where
  pub same : flatten c.0 ++ flatten c.1 ≡ bytes
  pub before : IsUniform b c.0
  pub behind : IsUniform b c.1
  pub moved : length (flatten c.0) + k % b ≡ k

pub settle-Rests :
    (b k : ℕ) (n : Node) (ns : List Node)
    → 0 < b
    → k ≤ b
    → length n ≡ b
    → IsUniform b ns
    → Rests b k (n ++ flatten ns) (settle k n ns)
settle-Rests b k n ns hb hk e u = elim (Bool-cases (length n == k)) [
  | inl full ↦ rw full (record {
    same = simp append-nil;
    before = (e, tt);
    behind = u;
    moved = grind (arith, length-append n [], (==_iff (length n) k).0 full);
  })
  | inr short ↦ rw short (record {
    same = refl;
    before = tt;
    behind = (e, u);
    moved = ground (arith, mod-eq_of_lt {n = k} {m = b});
  })
]

pub past-Rests :
    (b k k' : ℕ) (n : Node) (bytes bytes' : List ℕ) (c : Cursor)
    → length n ≡ b
    → k' ≡ b + k
    → bytes' ≡ n ++ bytes
    → Rests b k bytes c
    → Rests b k' bytes' (n ∷ c.0, c.1)
past-Rests b k k' n bytes bytes' c e ek eb r =
    rw (ek, eb)
      (record {
        same = append_assoc n (flatten c.0) (flatten c.1) ∙ ap (λ t. n ++ t) r.same;
        before = (e, r.before);
        behind = r.behind;
        moved = omega (arith, length-append n (flatten c.0), r.moved, add-mod_left b k);
      })

write_loop_last :
    (npos : ℕ) (n : Node) (ns : List Node) (buf : List ℕ)
    → npos + length buf ≤ length n
    → write_loop npos (n ∷ ns) buf ≡ ok (settle (npos + length buf) (splice npos buf n) ns)
unfolding write_loop
write_loop_last npos n ns buf h =
    rw (
      sub_size-le (length n) npos (omega arith),
      le→leb (length buf) (length n - npos) (omega arith),
    )

write_loop_more :
    (npos : ℕ) (n : Node) (ns : List Node) (buf : List ℕ)
    → npos ≤ length n
    → length n < npos + length buf
    → write_loop npos (n ∷ ns) buf
      ≡ past
          (splice npos (take (length n - npos) buf) n)
          (write_loop 0 ns (drop (length n - npos) buf))
unfolding write_loop
write_loop_more npos n ns buf h k =
    rw (sub_size-le (length n) npos h, lt→leb (length buf) (length n - npos) (omega arith))

-- The copy loop of `write` is one `memcpy` into the bytes of the chain, and leaves the cursor right
-- behind the last byte written.
pub write_loop-Rests :
    (b npos : ℕ) (ns : List Node) (buf : List ℕ)
    → npos < b
    → IsUniform b ns
    → 0 < length buf
    → npos + length buf ≤ length (flatten ns)
    → (c : Cursor) × (write_loop npos ns buf ≡ ok c)
      × Rests b (npos + length buf) (splice npos buf (flatten ns)) c
write_loop-Rests b npos [] buf hn u hb fits = absurd (omega arith)
write_loop-Rests b npos (n ∷ ns) buf hn u hb fits = elim (dec_le (npos + length buf) (length n)) [
  | yes last ↦ (
    settle (npos + length buf) (splice npos buf n) ns,
    write_loop_last npos n ns buf last,
    rw (splice_within npos buf n (flatten ns) last) (
        settle-Rests b (npos + length buf) (splice npos buf n) ns (omega arith) (omega arith)
          (omega (arith, length-splice npos buf n last)) u.1),
  )
  | no over ↦
      let ncap : ℕ = length n - npos in
      let cut : length (take ncap buf) ≡ ncap = length-take_le ncap buf (omega arith) in
      let left : length (drop ncap buf) ≡ length buf - ncap = length-drop ncap buf in
      let (c, e, r) =
        write_loop-Rests b 0 ns (drop ncap buf) (omega arith) u.1 (omega arith)
          (omega (arith, length-append n (flatten ns))) in
      (
        (splice npos (take ncap buf) n ∷ c.0, c.1),
        write_loop_more npos n ns buf (omega arith) (omega arith) ∙ rw e,
        past-Rests b (0 + length (drop ncap buf)) (npos + length buf)
            (splice npos (take ncap buf) n) (splice 0 (drop ncap buf) (flatten ns))
            (splice npos buf (n ++ flatten ns)) c
            (omega (arith, length-splice npos (take ncap buf) n (omega arith))) (omega arith)
            (ap (λ t. splice npos t (n ++ flatten ns)) (sym (take-append-drop ncap buf))
              ∙ splice_across npos (take ncap buf) (drop ncap buf) n (flatten ns) (omega arith))
            r,
      )
]
