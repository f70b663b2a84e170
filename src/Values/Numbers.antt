-- ===== src/Values/Numbers.antt =====
-- The integers of saturn/bytearray.cc written and read back.
use mathlib.Core.List.{append-nil}
use saturn.Base.{
  ℕ, ◌+◌, ◌%◌, ◌^◌, ◌<◌, ◌≡◌, ◌≢◌, refl, sym, ap, ap₂, ◌∙◌, inl, inr, [], ◌++◌, ◌==◌, ==_iff,
  if◌then◌else◌, arith, Bool-cases,
}
use saturn.ByteArray.{ByteArray, Outcome, ok, fault, Endian, set_position}
use saturn.ByteArray.Stream.{unread, rewind-unread}
use saturn.ByteArray.Invariant.{IsValid}
use saturn.Codec.{encode_zigzag, decode_zigzag}
use saturn.Codec.Fixed.{wire, length-wire}
use saturn.Codec.Zigzag.{decode-encode_zigzag, encode_zigzag-lt}
use saturn.Codec.Varint.{groups}
use saturn.Values.{
  read_local, write_fixed, write_uint32, write_uint64, write_int32, write_int64, read_fixed,
  read_uint32, read_uint64, read_int32,
}
use saturn.Values.RoundTrip.{Writes, Reads, ReadsBack, round_trip, Reads-map}
use saturn.Values.Loops.{
  write_fixed-Writes, write_varint-Writes, read_fixed_next, read_local-over, read_varint-groups,
}

-- `f` on `b` and `setPosition` to the old end succeed, and `g` stores bytes behind its variable.
abbrev pub Overruns :
    {A : Type 0}
    → ByteArray
    → (ByteArray → Outcome ByteArray)
    → (ByteArray → Outcome (A × ByteArray))
    → Type 0
Overruns b f g = (c d : ByteArray) × (f b ≡ ok c) × (set_position b.size c ≡ ok d) × (g d ≡ fault)

-- A value of `k` bytes that is written where it ends at the end of a node is read back, for every host and every
-- byte order of the buffer. One that ends inside a node is not: its read stores bytes behind the variable.
pub read_fixed-write_fixed :
    (host : Endian) (memory : ℕ → ℕ) (k v : ℕ) (b : ByteArray)
    → 0 < k
    → v < 256 ^ k
    → IsValid b
    → b.position ≡ b.size
    → if (b.size + k) % b.base_size == 0
      then ReadsBack b (write_fixed host memory k v) (read_fixed host k) v
      else Overruns b (write_fixed host memory k v) (read_fixed host k)
unfolding read_fixed
read_fixed-write_fixed host memory k v b hk h ok_b at_end =
    let (c, written, w) = write_fixed-Writes host memory k v b ok_b at_end in
    let (d, moved, at, m) = rewind-unread b c (wire b.endian k v) ok_b w in
    let same : d.endian ≡ b.endian = m.same_endian ∙ w.same_endian in
    let left : unread d ≡ wire d.endian k v ++ [] =
      m.left ∙ ap (λ o. wire o k v) (sym same) ∙ sym (append-nil (wire d.endian k v)) in
    let same_end : (d.position + k) % d.base_size ≡ (b.size + k) % b.base_size =
      ap₂ (λ p n. (p + k) % n) at (m.same_base ∙ w.same_base) in
    elim (Bool-cases ((b.size + k) % b.base_size == 0)) [
      | inl y ↦
          let end : (b.size + k) % b.base_size ≡ 0 = (==_iff _ 0).0 y in
          let (e, found, r) = read_fixed_next host k v d [] hk h m.valid (same_end ∙ end) left in
          rw y (c, d, e, written, moved, found, r.left, r.valid)
      | inr n ↦
          let inside : (b.size + k) % b.base_size ≢ 0 =
            (λ z. let yes_zero = (==_iff ((b.size + k) % b.base_size) 0).1 z in cc) in
          let over : read_local k d ≡ fault =
            read_local-over k d (wire d.endian k v) [] m.valid hk (length-wire d.endian k v)
              (λ z. inside (sym same_end ∙ z)) left in
          rw n (c, d, written, moved, rw over refl)
    ]

module _ (host : Endian) (memory : ℕ → ℕ) where
  write_uint32-Writes : (v : ℕ) → v < 2 ^ 32 → Writes (write_uint32 host memory v) (λ e. groups 4 v)
  unfolding write_uint32
  write_uint32-Writes v h = write_varint-Writes host memory 4 v (omega arith)

  pub write_uint64-Writes :
      (v : ℕ) → v < 2 ^ 64 → Writes (write_uint64 host memory v) (λ e. groups 9 v)
  unfolding write_uint64
  write_uint64-Writes v h = write_varint-Writes host memory 9 v (omega arith)

  write_int32-Writes :
      (v : ℕ) → v < 2 ^ 32 → Writes (write_int32 host memory v) (λ e. groups 4 (encode_zigzag 32 v))
  unfolding write_int32
  write_int32-Writes v h = write_uint32-Writes (encode_zigzag 32 v) (encode_zigzag-lt 32 v)

  pub write_int64-Writes :
      (v : ℕ) → v < 2 ^ 64 → Writes (write_int64 host memory v) (λ e. groups 9 (encode_zigzag 64 v))
  unfolding write_int64
  write_int64-Writes v h = write_uint64-Writes (encode_zigzag 64 v) (encode_zigzag-lt 64 v)

module _ (host : Endian) where
  pub read_uint32-Reads : (v : ℕ) → v < 2 ^ 32 → Reads (read_uint32 host) (λ e. groups 4 v) v
  unfolding read_uint32
  read_uint32-Reads v h b ys one ok_b e =
      let (c, found, r) =
        read_varint-groups host 32 4 5 0 0 v b ys (omega arith) (omega arith) (omega arith)
          (omega arith) one ok_b e in
      (c, found ∙ ap (λ (u : ℕ). ok (u, c)) (omega arith), r)

  pub read_uint64-Reads : (v : ℕ) → v < 2 ^ 64 → Reads (read_uint64 host) (λ e. groups 9 v) v
  unfolding read_uint64
  read_uint64-Reads v h b ys one ok_b e =
      let (c, found, r) =
        read_varint-groups host 64 9 10 0 0 v b ys (omega arith) (omega arith) (omega arith)
          (omega arith) one ok_b e in
      (c, found ∙ ap (λ (u : ℕ). ok (u, c)) (omega arith), r)

  read_int32-Reads :
      (v : ℕ) → v < 2 ^ 32 → Reads (read_int32 host) (λ e. groups 4 (encode_zigzag 32 v)) v
  unfolding read_int32
  read_int32-Reads v h b ys one ok_b e =
      let (c, found, r) =
        Reads-map (read_uint32 host) (decode_zigzag 32) (λ e. groups 4 (encode_zigzag 32 v))
          (encode_zigzag 32 v) (read_uint32-Reads (encode_zigzag 32 v) (encode_zigzag-lt 32 v)) b ys
          one ok_b e in
      (c, found ∙ ap (λ (u : ℕ). ok (u, c)) (decode-encode_zigzag 32 v (omega arith) h), r)

-- In a buffer with nodes of one byte, where each byte read ends a node, every `uint32_t` that `writeUint32` writes is read back by `readUint32`.
pub read_uint32-write_uint32 :
    (host : Endian) (memory : ℕ → ℕ) (v : ℕ) (b : ByteArray)
    → v < 2 ^ 32
    → b.base_size ≡ 1
    → IsValid b
    → b.position ≡ b.size
    → ReadsBack b (write_uint32 host memory v) (read_uint32 host) v
read_uint32-write_uint32 host memory v b h =
    round_trip (write_uint32 host memory v) (read_uint32 host) (λ e. groups 4 v) v b
      (write_uint32-Writes host memory v h) (read_uint32-Reads host v h)

-- In a buffer with nodes of one byte, where each byte read ends a node, every `uint64_t` that `writeUint64` writes is read back by `readUint64`.
pub read_uint64-write_uint64 :
    (host : Endian) (memory : ℕ → ℕ) (v : ℕ) (b : ByteArray)
    → v < 2 ^ 64
    → b.base_size ≡ 1
    → IsValid b
    → b.position ≡ b.size
    → ReadsBack b (write_uint64 host memory v) (read_uint64 host) v
read_uint64-write_uint64 host memory v b h =
    round_trip (write_uint64 host memory v) (read_uint64 host) (λ e. groups 9 v) v b
      (write_uint64-Writes host memory v h) (read_uint64-Reads host v h)

-- In a buffer with nodes of one byte, where each byte read ends a node, every `int32_t` that `writeInt32` writes is read back by `readInt32`.
pub read_int32-write_int32 :
    (host : Endian) (memory : ℕ → ℕ) (v : ℕ) (b : ByteArray)
    → v < 2 ^ 32
    → b.base_size ≡ 1
    → IsValid b
    → b.position ≡ b.size
    → ReadsBack b (write_int32 host memory v) (read_int32 host) v
read_int32-write_int32 host memory v b h =
    round_trip (write_int32 host memory v) (read_int32 host) (λ e. groups 4 (encode_zigzag 32 v)) v
      b (write_int32-Writes host memory v h) (read_int32-Reads host v h)
