-- ===== src/Values/Int64.antt =====
-- `writeInt64` and `readInt64` of saturn/bytearray.cc. `readInt64` calls `readUint32`, and so reads back
-- only the values whose code has 32 bits.
use saturn.Base.{
  ◌++◌, ℕ, zero, suc, ◌+◌, ◌^◌, ◌≤◌, ◌<◌, ◌≡◌, ◌≢◌, sym, ap, ◌∙◌, inl, inr, arith, Bool-cases, ltb,
}
use saturn.ByteArray.{ByteArray, Outcome, ok, out_of_range, fault, Outcome-cases, Endian}
use saturn.ByteArray.Invariant.{IsValid}
use saturn.Codec.{encode_zigzag, decode_zigzag, varint_round}
use saturn.Codec.Zigzag.{decode-encode_zigzag, encode-decode_zigzag}
use saturn.Codec.Varint.{groups, groups_fit, varint_round-lt}
use saturn.Values.{read_fuint8, read_varint, read_uint32, write_int64, read_int64}
use saturn.Values.RoundTrip.{Reads, ReadsBack, round_trip, Reads-map}
use saturn.Values.Numbers.{write_int64-Writes, read_uint32-Reads}

abbrev value_of : Outcome (ℕ × ByteArray) → ℕ
value_of (ok (v, c)) = v
value_of out_of_range = 0
value_of fault = 0

read_varint-lt :
    (host : Endian) (w rounds i result : ℕ) (b : ByteArray)
    → result < 2 ^ w
    → value_of (read_varint host w rounds i result b) < 2 ^ w
unfolding read_varint
read_varint-lt host w zero i result b h = h
read_varint-lt host w (suc rounds) i result b h = elim (Outcome-cases (read_fuint8 host b)) [
  | inl ((x, c), e) ↦ rw e (elim (Bool-cases (ltb x 128)) [
    | inl last ↦ rw last (varint_round-lt w i result x h)
    | inr more ↦ rw more (
        read_varint-lt host w rounds (i + 7) (varint_round w i result x) c
          (varint_round-lt w i result x h))
  ])
  | inr (inl e) ↦ rw e (omega (arith, h))
  | inr (inr e) ↦ rw e (omega (arith, h))
]

-- `readInt64` never returns a value whose zigzag code needs more than 32 bits, whatever the buffer holds.
pub read_int64_misses :
    (host : Endian) (v : ℕ) (b : ByteArray)
    → v < 2 ^ 64
    → 2 ^ 32 ≤ encode_zigzag 64 v
    → (u : ℕ) (c : ByteArray) → read_int64 host b ≡ ok (u, c)
    → u ≢ v
unfolding read_int64 read_uint32
read_int64_misses host v b hv wide u c e same = elim (Outcome-cases (read_varint host 32 5 0 0 b)) [
  | inl ((x, d), e') ↦
      let bound : x < 2 ^ 32 = rw e' at (read_varint-lt host 32 5 0 0 b (omega arith)) in
      let got : decode_zigzag 64 x ≡ u = ap value_of (rw e' at e) in
      let code : encode_zigzag 64 v ≡ x =
        ap (encode_zigzag 64) (sym (got ∙ same))
        ∙ encode-decode_zigzag 64 x (omega arith) (omega arith) in
      absurd (omega arith)
  | inr (inl e') ↦
      (let bad : ◌≡◌ {A = Outcome (ℕ × ByteArray)} out_of_range (ok (u, c)) = rw e' at e in cc)
  | inr (inr e') ↦
      (let bad : ◌≡◌ {A = Outcome (ℕ × ByteArray)} fault (ok (u, c)) = rw e' at e in cc)
]

read_int64-Reads :
    (host : Endian) (v : ℕ)
    → v < 2 ^ 64
    → encode_zigzag 64 v < 2 ^ 32
    → Reads (read_int64 host) (λ e. groups 9 (encode_zigzag 64 v)) v
unfolding read_int64
read_int64-Reads host v h small b ys one ok_b e =
    let code : ℕ = encode_zigzag 64 v in
    let (c, found, r) =
      Reads-map (read_uint32 host) (decode_zigzag 64) (λ e. groups 4 code) code
        (read_uint32-Reads host code small) b ys one ok_b
        (e ∙ ap (λ g. g ++ ys) (groups_fit 9 4 code (omega arith) (omega arith))) in
    (c, found ∙ ap (λ (u : ℕ). ok (u, c)) (decode-encode_zigzag 64 v (omega arith) h), r)

-- In a buffer with nodes of one byte, values whose zigzag code has 32 bits are read back by `readInt64`.
pub read_int64-write_int64 :
    (host : Endian) (memory : ℕ → ℕ) (v : ℕ) (b : ByteArray)
    → v < 2 ^ 64
    → encode_zigzag 64 v < 2 ^ 32
    → b.base_size ≡ 1
    → IsValid b
    → b.position ≡ b.size
    → ReadsBack b (write_int64 host memory v) (read_int64 host) v
read_int64-write_int64 host memory v b h small =
    round_trip (write_int64 host memory v) (read_int64 host) (λ e. groups 9 (encode_zigzag 64 v)) v
      b (write_int64-Writes host memory v h) (read_int64-Reads host v h small)
