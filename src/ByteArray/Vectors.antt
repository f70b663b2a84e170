-- ===== src/ByteArray/Vectors.antt =====
-- `getReadBuffers`, `getWriteBuffers` and `toHexString` of saturn/bytearray.cc: the parts of the chain that the
-- system's vectored calls read from and write to.
use native.Mathlib.Nat.{mod-lt}
use saturn.Base.{
  ℕ, suc, ◌+◌, ◌-◌, ◌*◌, ◌/◌, ◌%◌, ◌≤◌, ◌<◌, ◌≡◌, refl, sym, ap, subst, ◌∙◌, inl, inr, true, false,
  ◌&&◌, List, [], ◌∷◌, ◌++◌, length, drop, flatten, ltb, leb, ◌==◌, ==_iff, if◌then◌else◌, arith,
  Bool-cases, length-append, leb→lt, leb→le, ltb→le, pos_of_nonzero,
}
use saturn.StringUtil.{hexdigits}
use saturn.ByteArray.{
  ByteArray, Node, Outcome, ok, fault, ◌>>=◌, get_read_size, add_capacity, to_string,
}
use saturn.ByteArray.Chain.{sub_size-le, IsUniform}
use saturn.ByteArray.Invariant.{IsValid, Grown, Grown-refl, add_capacity-Grown}

-- An `iovec`: its base is a pointer into one node, the node at `iov_node` of the chain and the byte `iov_base`
-- of it; and its length.
pub record Iovec : Type 0 where
  pub iov_node : ℕ
  pub iov_base : ℕ
  pub iov_len : ℕ

-- The loop, from `npos` in the first of the nodes, which is the node at `i` of the chain.
unfoldable pub gather : ℕ → ℕ → ℕ → List Node → Outcome (List Iovec)
gather i npos len [] = fault
gather i npos len (n ∷ ns) =
    let ncap = length n - npos in
    elim (leb len ncap) [
      | true ↦ ok ((record { iov_node = i; iov_base = npos; iov_len = len }) ∷ [])
      | false ↦ gather (suc i) 0 (len - ncap) ns >>= λ is.
          ok ((record { iov_node = i; iov_base = npos; iov_len = ncap }) ∷ is)
    ]

-- What is left to read, where less than `len` bytes are.
unfoldable pub clipped : ℕ → ByteArray → ℕ
clipped len b = if ltb (get_read_size b) len then get_read_size b else len

unfoldable pub get_read_buffers : ℕ → ByteArray → Outcome (ℕ × List Iovec)
get_read_buffers len b =
    let n = clipped len b in
    if n == 0
    then ok (0, [])
    else gather (length b.front) (b.position % b.base_size) n b.rest >>= λ is. ok (n, is)

-- The form with a position, which counts the nodes from the first on.
unfoldable pub get_read_buffers_at : ℕ → ℕ → ByteArray → Outcome (ℕ × List Iovec)
get_read_buffers_at len position b =
    let n = clipped len b in
    let count = position / b.base_size in
    if n == 0
    then ok (0, [])
    else gather count (position % b.base_size) n (drop count (b.front ++ b.rest)) >>= λ is.
        ok (n, is)

unfoldable pub get_write_buffers : (ℕ → ℕ) → ℕ → ByteArray → Outcome (ℕ × List Iovec × ByteArray)
get_write_buffers memory len b =
    if len == 0
    then ok (0, [], b)
    else let c = add_capacity memory len b in
      gather (length c.front) (c.position % c.base_size) len c.rest >>= λ is. ok (len, is, c)

-- The loop of `toHexString`, from the byte `i` on.
unfoldable pub hex_text : ℕ → List ℕ → List ℕ
unfolding hexdigits
hex_text i [] = []
hex_text i (c ∷ cs) =
    (if ltb 0 i && (i % 32 == 0) then 10 ∷ [] else [])
    ++ (lower (c / 16) ∷ lower (c % 16) ∷ b' ' ∷ hex_text (suc i) cs)
  where
    lower : ℕ → ℕ
    lower d = if leb d 9 then 48 + d else 87 + d

unfoldable pub to_hex_string : ByteArray → Outcome (List ℕ)
to_hex_string b = to_string b >>= λ s. ok (hex_text 0 s)

-- The vectors follow each other in a chain of nodes of `size` bytes, from the byte `start` of the chain on, and
-- have `len` bytes together: each stays inside its node, which is the one that has the byte where the vector
-- before it ends.
abbrev pub Covers : ℕ → ℕ → ℕ → List Iovec → Type 0
Covers size start len [] = len ≡ 0
Covers size start len (v ∷ vs) =
    (v.iov_node * size + v.iov_base ≡ start)
    × (v.iov_base + v.iov_len ≤ size)
    × (0 < v.iov_len)
    × (v.iov_len ≤ len)
    × Covers size (start + v.iov_len) (len - v.iov_len) vs

gather-Covers :
    (b i npos len : ℕ) (ns : List Node)
    → npos < b
    → IsUniform b ns
    → 0 < len
    → npos + len ≤ length (flatten ns)
    → (is : List Iovec) × (gather i npos len ns ≡ ok is) × Covers b (i * b + npos) len is
unfolding gather
gather-Covers b i npos len [] h u p fit = absurd (omega arith)
gather-Covers b i npos len (n ∷ ns) h (e, u) p fit = elim (Bool-cases (leb len (length n - npos))) [
  | inl y ↦ (
    (record { iov_node = i; iov_base = npos; iov_len = len }) ∷ [],
    rw (y, gather) refl,
    (
      refl,
      (let few = leb→le len (length n - npos) y in omega (arith, few, e)),
      p,
      omega arith,
      omega arith,
    ),
  )
  | inr x ↦
      let more = leb→lt len (length n - npos) x in
      let all = length-append n (flatten ns) in
      let (is, g, c) =
        gather-Covers b (suc i) 0 (len - (length n - npos)) ns (omega arith) u (omega arith)
          (omega arith) in
      (
        (record { iov_node = i; iov_base = npos; iov_len = length n - npos }) ∷ is,
        rw (x, g, gather) refl,
        (
          refl,
          omega (arith, e, h),
          omega (arith, e, h),
          omega arith,
          subst (λ k. Covers b k (len - (length n - npos)) is) (next i b npos n e h) c,
        ),
      )
]
  where
    next :
        (i b npos : ℕ) (n : Node)
        → length n ≡ b
        → npos < b
        → suc i * b + 0 ≡ i * b + npos + (length n - npos)
    next i b npos n e h = omega (arith, suc_times i b, e, h)
      where
        suc_times : (i b : ℕ) → suc i * b ≡ i * b + b
        suc_times i b = omega arith

-- The bytes before a node of the chain.
length-front : (b : ℕ) (ns : List Node) → IsUniform b ns → length (flatten ns) ≡ length ns * b
length-front b [] u = omega arith
length-front b (n ∷ ns) (e, u) = omega (arith, length-append n (flatten ns), e, length-front b ns u)

clipped-le : (len : ℕ) (b : ByteArray) → clipped len b ≤ get_read_size b
unfolding clipped
clipped-le len b = elim (Bool-cases (ltb (get_read_size b) len)) [
  | inl y ↦ rw (y, clipped) (omega arith)
  | inr n ↦ rw (n, clipped) (ltb→le (get_read_size b) len n)
]

-- On a well-formed buffer the vectors to read from follow each other in the chain from the position on, each inside
-- one node and none empty, and have `len` bytes together, or as many as are left where that is less.
pub get_read_buffers-Covers :
    (len : ℕ) (b : ByteArray)
    → IsValid b
    → (is : List Iovec) × (get_read_buffers len b ≡ ok (clipped len b, is))
      × Covers b.base_size b.position (clipped len b) is
unfolding get_read_buffers
get_read_buffers-Covers len b v =
    let few = clipped-le len b in
    let left = sub_size-le b.size b.position v.reached in
    elim (Bool-cases (clipped len b == 0)) [
      | inl y ↦
          let none_left = (==_iff (clipped len b) 0).0 y in
          ([], rw (y, get_read_buffers) (ap (λ n. ok (n, [])) (sym none_left)), none_left)
      | inr n ↦
          let (is, g, c) =
            gather-Covers b.base_size (length b.front) (b.position % b.base_size) (clipped len b)
              b.rest (mod-lt b.position {m = b.base_size} v.base_pos) v.rest_uniform
              (pos_of_nonzero (clipped len b) n)
              (omega (arith, few, left, v.cursor, v.total, v.within, v.reached)) in
          (
            is,
            rw (n, g, get_read_buffers) refl,
            subst (λ k. Covers b.base_size k (clipped len b) is)
                (sym (
                    ap (λ k. k + b.position % b.base_size)
                      (length-front b.base_size b.front v.front_uniform))
                  ∙ v.cursor)
                c,
          )
    ]

-- On a well-formed buffer the vectors to write to follow each other in the chain from the position on, each inside
-- one node and none empty, and have `len` bytes together, in a buffer that has grown to hold them.
pub get_write_buffers-Covers :
    (memory : ℕ → ℕ) (len : ℕ) (b : ByteArray)
    → IsValid b
    → (is : List Iovec) × (c : ByteArray) × (get_write_buffers memory len b ≡ ok (len, is, c))
      × Covers c.base_size b.position len is
      × Grown len b c
unfolding get_write_buffers
get_write_buffers-Covers memory len b v =
    let c = add_capacity memory len b in
    let grown = add_capacity-Grown memory len b v in
    let w = grown.valid in
    elim (Bool-cases (len == 0)) [
      | inl y ↦
          let empty = (==_iff len 0).0 y in
          (
            [],
            b,
            rw (y, get_write_buffers) (ap (λ n. ok (n, [], b)) (sym empty)),
            empty,
            unchanged len b v empty,
          )
      | inr n ↦
          let (is, g, covers) =
            gather-Covers c.base_size (length c.front) (c.position % c.base_size) len c.rest
              (mod-lt c.position {m = c.base_size} w.base_pos) w.rest_uniform (pos_of_nonzero len n)
              (omega (arith, w.cursor, w.total, grown.room, grown.same_position)) in
          (
            is,
            c,
            rw (n, g, get_write_buffers) refl,
            subst (λ k. Covers c.base_size k len is)
                (sym (
                    ap (λ k. k + c.position % c.base_size)
                      (length-front c.base_size c.front w.front_uniform))
                  ∙ w.cursor
                  ∙ grown.same_position)
                covers,
            grown,
          )
    ]
  where
    unchanged : (len : ℕ) (b : ByteArray) → IsValid b → len ≡ 0 → Grown len b b
    unchanged len b v e = Grown-refl len b v (omega (arith, v.reached, v.within))
