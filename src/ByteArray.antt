-- ===== src/ByteArray.antt =====
-- saturn/bytearray.h and saturn/bytearray.cc, the buffer itself: a chain of nodes of `base_size`
-- bytes, a position in it, and the operations that move bytes in and out.
pub mod Chain
pub mod Copy
pub mod Invariant
pub mod Transfer
pub mod Reading
pub mod Seek
pub mod RoundTrip
pub mod ConstRead
pub mod Vectors
pub mod Stream
use saturn.Base.{
  ℕ, zero, suc, ◌+◌, ◌-◌, ◌*◌, ◌/◌, ◌%◌, ◌^◌, Bool, true, false, List, [], ◌∷◌, ◌++◌, length, take,
  drop, splice, flatten, ltb, leb, ◌==◌, if◌then◌else◌, ◌≡◌, ◌⊎◌, inl, inr, refl,
}

-- What a call comes to: a value, the exception `std::out_of_range`, or the use of a null `m_cur`.
pub data Outcome {ℓ} (A : Type ℓ) : Type ℓ where
  ok : A → Outcome A
  out_of_range : Outcome A
  fault : Outcome A

infixl 5 ◌>>=◌
abbrev pub ◌>>=◌ {ℓ κ} : {A : Type ℓ} {B : Type κ} → Outcome A → (A → Outcome B) → Outcome B
ok a >>= f = f a
out_of_range >>= f = out_of_range
fault >>= f = fault

pub data Endian : Type 0 where
  little big : Endian

-- The bytes that `ptr` points to; `size` is their number.
abbrev pub Node : Type 0
Node = List ℕ

-- `front` are the nodes before `m_cur`, and `rest` is the chain that `m_cur` points to, which is
-- empty for a null pointer; so `m_root` is the first node of `front ++ rest`.
pub record ByteArray : Type 0 where
  pub base_size : ℕ
  pub position : ℕ
  pub capacity : ℕ
  pub size : ℕ
  pub endian : Endian
  pub front : List Node
  pub rest : List Node

-- All the bytes of the chain, written or not.
abbrev pub contents : ByteArray → List ℕ
contents b = flatten b.front ++ flatten b.rest

-- `a - b` on `size_t`.
abbrev pub sub_size : ℕ → ℕ → ℕ
sub_size a b = if leb b a then a - b else a + 2 ^ 64 - b

-- `new char[size]`: the bytes are what the memory holds, `memory i` for the i-th byte of the chain.
unfoldable pub new_node : (ℕ → ℕ) → ℕ → ℕ → Node
new_node memory at zero = []
new_node memory at (suc size) = memory at ∷ new_node memory (suc at) size

unfoldable pub new_chain : (ℕ → ℕ) → ℕ → ℕ → ℕ → List Node
new_chain memory zero at base_size = []
new_chain memory (suc count) at base_size =
    new_node memory at base_size ∷ new_chain memory count (at + base_size) base_size

-- The constructor.
unfoldable pub make : (ℕ → ℕ) → ℕ → ByteArray
make memory base_size = record {
  base_size = base_size;
  position = 0;
  capacity = base_size;
  size = 0;
  endian = big;
  front = [];
  rest = new_node memory 0 base_size ∷ [];
}

unfoldable pub is_little_endian : ByteArray → Bool
is_little_endian b = elim b.endian [ little ↦ true | big ↦ false ]

unfoldable pub set_is_little_endian : Bool → ByteArray → ByteArray
set_is_little_endian val b = record b { endian = if val then little else big }

abbrev pub get_capacity : ByteArray → ℕ
get_capacity b = sub_size b.capacity b.position

abbrev pub get_read_size : ByteArray → ℕ
get_read_size b = sub_size b.size b.position

-- `ceil(1.0 * size / m_baseSize)`.
abbrev pub node_count : ℕ → ℕ → ℕ
node_count size base_size = (size + base_size - 1) / base_size

-- The second half of `addCapacity`: `count` new nodes behind the last one.
unfoldable pub grow : (ℕ → ℕ) → ℕ → ℕ → ByteArray → ByteArray
grow memory old_cap count b =
    let chain = new_chain memory count b.capacity b.base_size in
    record b {
      capacity = b.capacity + count * b.base_size;
      front = if old_cap == 0 then b.front ++ b.rest else b.front;
      rest = if old_cap == 0 then chain else b.rest ++ chain;
    }

unfoldable pub add_capacity : (ℕ → ℕ) → ℕ → ByteArray → ByteArray
add_capacity memory size b =
    if size == 0
    then b
    else if leb size (get_capacity b)
    then b
    else grow memory (get_capacity b) (node_count (size - get_capacity b) b.base_size) b

-- The nodes that `m_cur` moved past, and the chain that it points to now.
abbrev pub Cursor : Type 0
Cursor = List Node × List Node

abbrev pub past : Node → Outcome Cursor → Outcome Cursor
past n r = r >>= λ c. ok (n ∷ c.0, c.1)

-- The step of `m_cur` at the end of a copy that ends in node `n`.
abbrev pub settle : ℕ → Node → List Node → Cursor
settle end n ns = if length n == end then (n ∷ [], ns) else ([], n ∷ ns)

-- The loop of `write`, for a number of bytes that is not 0.
unfoldable pub write_loop : ℕ → List Node → List ℕ → Outcome Cursor
write_loop npos [] buf = fault
write_loop npos (n ∷ ns) buf =
    let ncap = sub_size (length n) npos in
    let more = past (splice npos (take ncap buf) n) (write_loop 0 ns (drop ncap buf)) in
    if leb (length buf) ncap then ok (settle (npos + length buf) (splice npos buf n) ns) else more

-- `write(buf, size)`.
unfoldable pub write : (ℕ → ℕ) → List ℕ → ByteArray → Outcome ByteArray
write memory [] b = ok b
write memory (x ∷ xs) b =
    let buf : List ℕ = x ∷ xs in
    let c = add_capacity memory (length buf) b in
    write_loop (c.position % c.base_size) c.rest buf >>= λ (passed, rest). ok (record c {
      position = c.position + length buf;
      size = if ltb c.size (c.position + length buf) then c.position + length buf else c.size;
      front = c.front ++ passed;
      rest = rest;
    })

-- The loop of `read`: the bytes copied, and the cursor. The last round copies `ncap` bytes, all that
-- is left of its node, and not `size`.
unfoldable pub read_loop : ℕ → List Node → ℕ → Outcome (List ℕ × List Node × List Node)
read_loop npos [] size = fault
read_loop npos (n ∷ ns) size =
    let ncap = sub_size (length n) npos in
    let copied = take ncap (drop npos n) in
    let more = read_loop 0 ns (size - ncap) >>= λ r. ok (copied ++ r.0, n ∷ r.1, r.2) in
    if leb size ncap
    then ok (copied, (settle (npos + size) n ns).0, (settle (npos + size) n ns).1)
    else more

-- `m_cur->size` stands above the loop, so a null `m_cur` is used even for a size of 0.
unfoldable pub read_from : List Node → ℕ → ByteArray → Outcome (List ℕ × ByteArray)
read_from [] size b = fault
read_from (n ∷ ns) zero b = ok ([], b)
read_from (n ∷ ns) (suc k) b =
    read_loop (b.position % b.base_size) (n ∷ ns) (suc k) >>= λ (bytes, passed, rest).
    ok (bytes, record b { position = b.position + suc k; front = b.front ++ passed; rest = rest })

-- `read(buf, size)`: the bytes that are copied to `buf` and behind it.
unfoldable pub read : ℕ → ByteArray → Outcome (List ℕ × ByteArray)
unfolding read_from
read size b = if ltb (get_read_size b) size then out_of_range else read_from b.rest size b

-- The loop of `read(buf, size, position) const`.
unfoldable pub read_at_loop : ℕ → List Node → ℕ → Outcome (List ℕ)
read_at_loop npos [] size = fault
read_at_loop npos (n ∷ ns) size =
    let ncap = sub_size (length n) npos in
    let more = read_at_loop 0 ns (size - ncap) >>= λ bytes. ok (take ncap (drop npos n) ++ bytes) in
    if leb size ncap then ok (take size (drop npos n)) else more

unfoldable pub read_at_from : List Node → ℕ → ℕ → Outcome (List ℕ)
read_at_from [] npos size = fault
read_at_from (n ∷ ns) npos zero = ok []
read_at_from (n ∷ ns) npos (suc k) = read_at_loop npos (n ∷ ns) (suc k)

unfoldable pub read_at : ℕ → ℕ → ByteArray → Outcome (List ℕ)
unfolding read_at_from
read_at size position b =
    if ltb (sub_size b.size position) size
    then out_of_range
    else read_at_from b.rest (position % b.base_size) size

-- The loop of `setPosition` over the chain from `m_root`.
unfoldable pub seek : ℕ → List Node → Outcome Cursor
seek v [] = fault
seek v (n ∷ ns) =
    let more = past n (seek (v - length n) ns) in
    if ltb (length n) v then more else ok (settle v n ns)

unfoldable pub set_position : ℕ → ByteArray → Outcome ByteArray
set_position v b =
    if ltb b.capacity v
    then out_of_range
    else seek v (b.front ++ b.rest) >>= λ (passed, rest). ok (record b {
      position = v;
      size = if ltb b.size v then v else b.size;
      front = passed;
      rest = rest;
    })

abbrev pub root_of : List Node → List Node
root_of [] = []
root_of (n ∷ ns) = n ∷ []

unfoldable pub clear : ByteArray → ByteArray
clear b = record b {
  position = 0;
  size = 0;
  capacity = b.base_size;
  front = [];
  rest = root_of (b.front ++ b.rest);
}

-- `toString`.
unfoldable pub to_string : ByteArray → Outcome (List ℕ)
to_string b = if get_read_size b == 0 then ok [] else read_at (get_read_size b) b.position b

-- To split on the outcome of a call and keep the equation.
pub Outcome-cases {ℓ} :
    {A : Type ℓ} (r : Outcome A) → ((a : A) × (r ≡ ok a)) ⊎ ((r ≡ out_of_range) ⊎ (r ≡ fault))
Outcome-cases (ok a) = inl (a, refl)
Outcome-cases out_of_range = inr (inl refl)
Outcome-cases fault = inr (inr refl)
