-- ===== src/Codec.antt =====
-- The encodings of saturn/bytearray.cc as functions on numbers and bytes: fixed width, zigzag and
-- variable length. A signed value is its two's complement bit pattern.
pub mod Fixed
pub mod Zigzag
pub mod Varint
use Prim.Native.Nat.{bit_and, bit_or, bit_xor}
use mathlib.Core.Option
use saturn.Base.{
  ℕ, zero, suc, ◌+◌, ◌-◌, ◌*◌, ◌/◌, ◌%◌, ◌^◌, List, [], ◌∷◌, reverse, Option, none, some, Bool,
  true, false, ltb, if◌then◌else◌,
}
use saturn.ByteArray.{Endian, little, big}

-- The `k` low bytes of a value, lowest first.
unfoldable pub le_bytes : ℕ → ℕ → List ℕ
le_bytes zero v = []
le_bytes (suc k) v = v % 256 ∷ le_bytes k (v / 256)

unfoldable pub of_le_bytes : List ℕ → ℕ
of_le_bytes [] = 0
of_le_bytes (x ∷ xs) = x + 256 * of_le_bytes xs

abbrev pub same_order : Endian → Endian → Bool
same_order little little = true
same_order little big = false
same_order big little = false
same_order big big = true

-- The bytes that an object of `k` bytes has in memory, on a host of the given byte order.
unfoldable pub in_memory : Endian → ℕ → ℕ → List ℕ
in_memory little k v = le_bytes k v
in_memory big k v = reverse (le_bytes k v)

-- The value of an object whose bytes are these.
unfoldable pub of_memory : Endian → List ℕ → ℕ
of_memory little bytes = of_le_bytes bytes
of_memory big bytes = of_le_bytes (reverse bytes)

-- `byteswap` for values of `k` bytes.
unfoldable pub byteswap : ℕ → ℕ → ℕ
byteswap k v = of_le_bytes (reverse (le_bytes k v))

-- What the `writeF` functions hand to `write`: `BYTE_ORDER` is `host`, and `m_endian` is `endian`.
unfoldable pub encode_fixed : Endian → Endian → ℕ → ℕ → List ℕ
encode_fixed host endian k value =
    in_memory host k (if same_order endian host then value else byteswap k value)

-- What the `readF` functions make of the bytes that `read` stores in their variable.
unfoldable pub decode_fixed : Endian → Endian → ℕ → List ℕ → ℕ
decode_fixed host endian k bytes =
    if same_order endian host then of_memory host bytes else byteswap k (of_memory host bytes)

-- `EncodeZigzag32` and `EncodeZigzag64`, for patterns of `w` bits. `v < 0` is the top bit, and `-v` is
-- taken modulo `2 ^ w`.
unfoldable pub encode_zigzag : ℕ → ℕ → ℕ
encode_zigzag w v =
    if ltb v (2 ^ (w - 1)) then v * 2 % 2 ^ w else ((2 ^ w - v) % 2 ^ w * 2 + 2 ^ w - 1) % 2 ^ w

-- `(v >> 1) ^ -(v & 1)`.
unfoldable pub decode_zigzag : ℕ → ℕ → ℕ
decode_zigzag w v = bit_xor (v / 2) ((2 ^ w - bit_and v 1) % 2 ^ w)

-- The loop of `writeUint32` and `writeUint64`, for an array `tmp` with `room` bytes left. `none` is a
-- store behind the array.
unfoldable pub varint : ℕ → ℕ → Option (List ℕ)
varint zero value = none
varint (suc room) value =
    let rest = varint room (value / 128) in
    if ltb value 0x80
    then some (value % 256 ∷ [])
    else Option.map (λ bytes. bit_or (bit_and value 0x7f) 0x80 % 256 ∷ bytes) rest

-- One round of the loop of `readUint32` and `readUint64`, for a result of `w` bits: the byte `b` at the
-- shift `i`. (`(uint32_t)b << i` is cut to the width.)
unfoldable pub varint_round : ℕ → ℕ → ℕ → ℕ → ℕ
varint_round w i result b =
    if ltb b 0x80
    then bit_or result (b * 2 ^ i % 2 ^ w)
    else bit_or result (bit_and b 0x7f * 2 ^ i % 2 ^ w)
