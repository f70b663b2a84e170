-- ===== src/ByteArray/Invariant.antt =====
-- The well-formed buffers of saturn/bytearray.cc, and what `addCapacity` and the constructor do.
use mathlib.Core.List.{append_assoc, append-nil}
use native.Mathlib.Nat.{mod-eq_of_lt, mod-lt, div-add-mod'}
use saturn.Base.{
  ℕ, zero, suc, ◌+◌, ◌-◌, ◌*◌, ◌%◌, ◌≤◌, ◌<◌, ◌≡◌, refl, sym, ap, inl, inr, true, false, List, [],
  ◌∷◌, ◌++◌, All-append, length, flatten, leb, ◌==◌, arith, Bool-cases, length-append,
  flatten-append, ==_iff, leb→le, leb→lt,
}
use saturn.ByteArray.{
  ByteArray, Node, contents, new_node, new_chain, make, node_count, grow, add_capacity,
}
use saturn.ByteArray.Chain.{sub_size-le, IsUniform}

-- The nodes all have the base size, `capacity` is their total, `m_cur` is the node that holds the
-- position, and the position and the size stay within the capacity.
pub record IsValid (b : ByteArray) : Type 0 where
  pub base_pos : 0 < b.base_size
  pub front_uniform : IsUniform b.base_size b.front
  pub rest_uniform : IsUniform b.base_size b.rest
  pub total : length (flatten b.front) + length (flatten b.rest) ≡ b.capacity
  pub cursor : length (flatten b.front) + b.position % b.base_size ≡ b.position
  pub reached : b.position ≤ b.size
  pub within : b.size ≤ b.capacity
  pub rooted : b.base_size ≤ b.capacity

length-new_node : (memory : ℕ → ℕ) (at size : ℕ) → length (new_node memory at size) ≡ size
unfolding new_node
length-new_node memory at zero = refl
length-new_node memory at (suc size) = ap suc (length-new_node memory (suc at) size)

new_chain-IsUniform : (memory : ℕ → ℕ) (count at b : ℕ) → IsUniform b (new_chain memory count at b)
unfolding new_chain
new_chain-IsUniform memory zero at b = tt
new_chain-IsUniform memory (suc count) at b =
    (length-new_node memory at b, new_chain-IsUniform memory count (at + b) b)

length-new_chain :
    (memory : ℕ → ℕ) (count at b : ℕ) → length (flatten (new_chain memory count at b)) ≡ count * b
unfolding new_chain
length-new_chain memory zero at b = omega arith
length-new_chain memory (suc count) at b = omega (
  arith,
  length-append (new_node memory at b) (flatten (new_chain memory count (at + b) b)),
  length-new_node memory at b,
  length-new_chain memory count (at + b) b,
)

make-IsValid : (memory : ℕ → ℕ) (base_size : ℕ) → 0 < base_size → IsValid (make memory base_size)
unfolding make
make-IsValid memory base_size h = record {
  base_pos = h;
  front_uniform = tt;
  rest_uniform = (length-new_node memory 0 base_size, tt);
  total =
      omega
        (arith, length-append (new_node memory 0 base_size) [], length-new_node memory 0 base_size);
  cursor = omega (arith, mod-eq_of_lt {n = 0} {m = base_size} h);
  reached = omega arith;
  within = omega arith;
  rooted = omega arith;
}

-- At the full capacity `m_cur` is null.
pub rest_at_end :
    (b pos front : ℕ) (rest : List Node)
    → 0 < b
    → IsUniform b rest
    → front + pos % b ≡ pos
    → front + length (flatten rest) ≡ pos
    → length (flatten rest) ≡ 0
rest_at_end b pos front [] hb u c t = refl
rest_at_end b pos front (n ∷ ns) hb u c t =
    absurd (omega (arith, length-append n (flatten ns), mod-lt pos {m = b} hb, u.0))

-- Before it `m_cur` is not null, and the position is inside the first node of `rest`.
pub rest_before_end :
    (b : ByteArray) → IsValid b → b.position < b.capacity → 0 < length (flatten b.rest)
rest_before_end b v h =
    omega (arith, v.total, v.cursor, mod-lt b.position {m = b.base_size} v.base_pos)

enough_nodes : (size b : ℕ) → 0 < b → size ≤ node_count size b * b
enough_nodes size b h =
    omega (arith, div-add-mod' (size + b - 1) b, mod-lt (size + b - 1) {m = b} h)

-- `c` is `b` with `extra` bytes of new memory behind its own, room for `n` bytes from the position on.
pub record Grown (n : ℕ) (b c : ByteArray) : Type 0 where
  pub valid : IsValid c
  pub same_base : c.base_size ≡ b.base_size
  pub same_position : c.position ≡ b.position
  pub same_size : c.size ≡ b.size
  pub same_endian : c.endian ≡ b.endian
  pub extra : List ℕ
  pub kept : contents c ≡ contents b ++ extra
  pub room : b.position + n ≤ c.capacity

pub Grown-refl : (n : ℕ) (b : ByteArray) → IsValid b → b.position + n ≤ b.capacity → Grown n b b
Grown-refl n b v h = record {
  valid = v;
  same_base = refl;
  same_position = refl;
  same_size = refl;
  same_endian = refl;
  extra = [];
  kept = sym (append-nil (contents b));
  room = h;
}

module _ (memory : ℕ → ℕ) (b : ByteArray) (v : IsValid b) (count : ℕ) where
  abbrev chain : List Node
  chain = new_chain memory count b.capacity b.base_size

  grow_behind :
      (old_cap n : ℕ)
      → old_cap == 0 ≡ false
      → b.position + n ≤ b.capacity + count * b.base_size
      → Grown n b (grow memory old_cap count b)
  unfolding grow
  grow_behind old_cap n e h = rw e (record {
    valid = record {
      base_pos = v.base_pos;
      front_uniform = v.front_uniform;
      rest_uniform =
          All-append _ b.rest chain v.rest_uniform
            (new_chain-IsUniform memory count b.capacity b.base_size);
      total =
          rw (flatten-append b.rest chain, length-append (flatten b.rest) (flatten chain))
            (omega (arith, v.total, length-new_chain memory count b.capacity b.base_size));
      cursor = v.cursor;
      reached = v.reached;
      within = omega (arith, v.within);
      rooted = omega (arith, v.rooted);
    };
    same_base = refl;
    same_position = refl;
    same_size = refl;
    same_endian = refl;
    extra = flatten chain;
    kept = rw flatten-append (simp append_assoc);
    room = h;
  })

  grow_at_end :
      (old_cap n : ℕ)
      → old_cap == 0 ≡ true
      → b.position ≡ b.capacity
      → b.position + n ≤ b.capacity + count * b.base_size
      → Grown n b (grow memory old_cap count b)
  unfolding grow
  grow_at_end old_cap n e full h = rw e (record {
    valid = record {
      base_pos = v.base_pos;
      front_uniform = All-append _ b.front b.rest v.front_uniform v.rest_uniform;
      rest_uniform = new_chain-IsUniform memory count b.capacity b.base_size;
      total =
          rw (flatten-append b.front b.rest, length-append (flatten b.front) (flatten b.rest))
            (omega (arith, v.total, length-new_chain memory count b.capacity b.base_size));
      cursor =
          rw (flatten-append b.front b.rest, length-append (flatten b.front) (flatten b.rest))
            (omega (
              arith,
              v.total,
              v.cursor,
              full,
              rest_at_end b.base_size b.position (length (flatten b.front)) b.rest v.base_pos
                  v.rest_uniform v.cursor (omega (arith, v.total, full)),
            ));
      reached = v.reached;
      within = omega (arith, v.within);
      rooted = omega (arith, v.rooted);
    };
    same_base = refl;
    same_position = refl;
    same_size = refl;
    same_endian = refl;
    extra = flatten chain;
    kept = rw flatten-append refl;
    room = h;
  })

suc-eq_zero : (k : ℕ) → (suc k == 0) ≡ false
suc-eq_zero k = ground arith

-- `addCapacity` makes room for `size` bytes behind the position and keeps every byte, the position,
-- the size and the byte order.
pub add_capacity-Grown :
    (memory : ℕ → ℕ) (size : ℕ) (b : ByteArray)
    → IsValid b
    → Grown size b (add_capacity memory size b)
unfolding add_capacity
add_capacity-Grown memory zero b v = Grown-refl zero b v (omega (arith, v.reached, v.within))
add_capacity-Grown memory (suc k) b v =
    rw (suc-eq_zero k, sub_size-le b.capacity b.position (omega (arith, v.reached, v.within)))
      (elim (Bool-cases (leb (suc k) (b.capacity - b.position))) [
        | inl fits ↦ rw fits (
            Grown-refl (suc k) b v
              (omega (arith, v.reached, v.within, leb→le (suc k) (b.capacity - b.position) fits)))
        | inr more ↦
            let old_cap : ℕ = b.capacity - b.position in
            let short : old_cap < suc k = leb→lt (suc k) old_cap more in
            let count : ℕ = node_count (suc k - old_cap) b.base_size in
            let enough : b.position + suc k ≤ b.capacity + count * b.base_size =
              omega (
                arith,
                v.reached,
                v.within,
                enough_nodes (suc k - old_cap) b.base_size v.base_pos,
              ) in
            rw more (elim (Bool-cases (old_cap == 0)) [
              | inl none_left ↦
                  grow_at_end memory b v count old_cap (suc k) none_left
                    (omega (arith, v.reached, v.within, (==_iff old_cap 0).0 none_left)) enough
              | inr some_left ↦ grow_behind memory b v count old_cap (suc k) some_left enough
            ])
      ])
