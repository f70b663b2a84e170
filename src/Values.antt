-- ===== src/Values.antt =====
-- The typed `write…` and `read…` functions of saturn/bytearray.cc over the buffer. `host` is
-- `BYTE_ORDER`; an integer is its bit pattern, a float the pattern that `memcpy` gives.
pub mod RoundTrip
pub mod Loops
pub mod Numbers
pub mod Int64
pub mod Strings
use saturn.Base.{
  ℕ, zero, suc, ◌+◌, ◌%◌, ◌^◌, List, [], ◌∷◌, length, leb, Option, none, some, ltb, if◌then◌else◌,
}
use saturn.ByteArray.{ByteArray, Outcome, ok, fault, ◌>>=◌, Endian, write, read}
use saturn.Codec.{
  in_memory, of_memory, encode_fixed, decode_fixed, encode_zigzag, decode_zigzag, varint,
  varint_round,
}

module _ (host : Endian) (memory : ℕ → ℕ) where
  -- `writeFint8` and `writeFuint8`.
  unfoldable pub write_fuint8 : ℕ → ByteArray → Outcome ByteArray
  write_fuint8 value b = write memory (in_memory host 1 value) b

  -- `writeFint16` to `writeFuint64`, for a value of `k` bytes.
  unfoldable pub write_fixed : ℕ → ℕ → ByteArray → Outcome ByteArray
  write_fixed k value b = write memory (encode_fixed host b.endian k value) b

  -- The common body of `writeUint32` and `writeUint64`, for an array `tmp` of `room` bytes.
  unfoldable pub write_varint : ℕ → ℕ → ByteArray → Outcome ByteArray
  write_varint room value b = elim (varint room value) [
    | none ↦ fault
    | some tmp ↦ write memory tmp b
  ]

  unfoldable pub write_uint32 : ℕ → ByteArray → Outcome ByteArray
  write_uint32 value b = write_varint 5 value b

  unfoldable pub write_uint64 : ℕ → ByteArray → Outcome ByteArray
  write_uint64 value b = write_varint 10 value b

  unfoldable pub write_int32 : ℕ → ByteArray → Outcome ByteArray
  write_int32 value b = write_uint32 (encode_zigzag 32 value) b

  unfoldable pub write_int64 : ℕ → ByteArray → Outcome ByteArray
  write_int64 value b = write_uint64 (encode_zigzag 64 value) b

  unfoldable pub write_float : ℕ → ByteArray → Outcome ByteArray
  write_float value b = write_fixed 4 value b

  unfoldable pub write_double : ℕ → ByteArray → Outcome ByteArray
  write_double value b = write_fixed 8 value b

  -- `writeStringF16`, `F32` and `F64`: the length in `k` bytes, and the characters.
  unfoldable pub write_string_fixed : ℕ → List ℕ → ByteArray → Outcome ByteArray
  write_string_fixed k value b = write_fixed k (length value % 256 ^ k) b >>= write memory value

  unfoldable pub write_string_vint : List ℕ → ByteArray → Outcome ByteArray
  write_string_vint value b = write_uint64 (length value) b >>= write memory value

  unfoldable pub write_string_no_len : List ℕ → ByteArray → Outcome ByteArray
  write_string_no_len value b = write memory value b

-- `read` into a variable or a string of `len` bytes: a store behind these is a fault.
unfoldable pub read_local : ℕ → ByteArray → Outcome (List ℕ × ByteArray)
read_local len b =
    read len b >>= λ (image, c). if leb (length image) len then ok (image, c) else fault

module _ (host : Endian) where
  -- `readFint8` and `readFuint8`.
  unfoldable pub read_fuint8 : ByteArray → Outcome (ℕ × ByteArray)
  read_fuint8 b = read_local 1 b >>= λ (image, c). ok (of_memory host image, c)

  -- `readFint16` to `readFuint64`, for a value of `k` bytes.
  unfoldable pub read_fixed : ℕ → ByteArray → Outcome (ℕ × ByteArray)
  read_fixed k b = read_local k b >>= λ (image, c). ok (decode_fixed host c.endian k image, c)

  -- The loop of `readUint32` and `readUint64`, for a result of `w` bits: `rounds` are the values of `i`
  -- that are left below `w`.
  unfoldable pub read_varint : ℕ → ℕ → ℕ → ℕ → ByteArray → Outcome (ℕ × ByteArray)
  read_varint w zero i result b = ok (result, b)
  read_varint w (suc rounds) i result b = read_fuint8 b >>= λ (x, c).
      let more = read_varint w rounds (i + 7) (varint_round w i result x) c in
      if ltb x 0x80 then ok (varint_round w i result x, c) else more

  -- `i` is 0, 7, 14, 21, 28.
  unfoldable pub read_uint32 : ByteArray → Outcome (ℕ × ByteArray)
  read_uint32 b = read_varint 32 5 0 0 b

  -- `i` is 0, 7, ..., 63.
  unfoldable pub read_uint64 : ByteArray → Outcome (ℕ × ByteArray)
  read_uint64 b = read_varint 64 10 0 0 b

  unfoldable pub read_int32 : ByteArray → Outcome (ℕ × ByteArray)
  read_int32 b = read_uint32 b >>= λ (v, c). ok (decode_zigzag 32 v, c)

  -- `DecodeZigzag64(readUint32())`, as the source has it.
  unfoldable pub read_int64 : ByteArray → Outcome (ℕ × ByteArray)
  read_int64 b = read_uint32 b >>= λ (v, c). ok (decode_zigzag 64 v, c)

  unfoldable pub read_float : ByteArray → Outcome (ℕ × ByteArray)
  read_float b = read_fixed 4 b

  unfoldable pub read_double : ByteArray → Outcome (ℕ × ByteArray)
  read_double b = read_fixed 8 b

  unfoldable pub read_chars : ℕ × ByteArray → Outcome (List ℕ × ByteArray)
  read_chars (len, b) = read_local len b

  -- `readStringF16`, `F32` and `F64`.
  unfoldable pub read_string_fixed : ℕ → ByteArray → Outcome (List ℕ × ByteArray)
  read_string_fixed k b = read_fixed k b >>= read_chars

  unfoldable pub read_string_vint : ByteArray → Outcome (List ℕ × ByteArray)
  read_string_vint b = read_uint64 b >>= read_chars
