-- ===== src/Tests/Values.antt =====
-- The typed values of saturn/bytearray.cc at concrete inputs.
use saturn.Base.{ℕ, ◌-◌, ◌^◌, ◌≤◌, ◌<◌, ◌≡◌, ◌≢◌, ◌%◌, ◌==◌, if◌then◌else◌, refl, [], ◌∷◌, arith}
use saturn.ByteArray.{ByteArray, ok, little, big, read, read_from, read_loop}
use saturn.ByteArray.Invariant.{IsValid}
use saturn.Codec.{encode_zigzag, decode_zigzag, varint_round, of_memory, of_le_bytes}
use saturn.Values.{
  read_local, read_varint, read_fuint8, write_fixed, read_fixed, read_uint32, write_uint64,
  read_uint64, read_int64,
}
use saturn.Values.RoundTrip.{ReadsBack}
use saturn.Values.Numbers.{Overruns, read_fixed-write_fixed, read_uint64-write_uint64}
use saturn.Values.Int64.{read_int64_misses}

abbrev zeros : ℕ → ℕ
zeros i = 0

abbrev small : ByteArray
small = record {
  base_size = 4;
  position = 0;
  capacity = 4;
  size = 0;
  endian = big;
  front = [];
  rest = (0 ∷ 0 ∷ 0 ∷ 0 ∷ []) ∷ [];
}

small-IsValid : IsValid small
small-IsValid = omega arith

read_fixed-write_fixed_example :
    if 4 % 4 == 0
    then ReadsBack small (write_fixed little zeros 4 300) (read_fixed little 4) 300
    else Overruns small (write_fixed little zeros 4 300) (read_fixed little 4)
read_fixed-write_fixed_example =
    read_fixed-write_fixed little zeros 4 300 small (omega arith) (omega arith) small-IsValid refl

-- A buffer with nodes of one byte.
abbrev narrow : ByteArray
narrow = record small { base_size = 1; capacity = 1; rest = (0 ∷ []) ∷ [] }

narrow-IsValid : IsValid narrow
narrow-IsValid = omega arith

read_uint64-write_uint64_example :
    ReadsBack narrow (write_uint64 little zeros 300) (read_uint64 little) 300
read_uint64-write_uint64_example =
    read_uint64-write_uint64 little zeros 300 narrow (omega arith) refl narrow-IsValid refl

code_of_minus_one : encode_zigzag 64 (2 ^ 64 - 1) < 2 ^ 32
unfolding encode_zigzag
code_of_minus_one = omega arith

code_of_wide : 2 ^ 32 ≤ encode_zigzag 64 (2 ^ 40)
unfolding encode_zigzag
code_of_wide = omega arith

-- A buffer that holds the byte 2, in a node of its own.
abbrev one_byte : ByteArray
one_byte = record narrow { size = 1; rest = (2 ∷ []) ∷ [] }

read_int64_run :
    read_int64 little one_byte
    ≡ ok (1, record one_byte { position = 1; front = (2 ∷ []) ∷ []; rest = [] })
unfolding read_int64 read_uint32 read_varint read_fuint8 read_local read read_from read_loop
    varint_round of_memory of_le_bytes decode_zigzag
read_int64_run = refl

read_int64_misses_example : ◌≢◌ {A = ℕ} 1 (2 ^ 40)
read_int64_misses_example =
    read_int64_misses little (2 ^ 40) one_byte (omega arith) code_of_wide 1
      (record one_byte { position = 1; front = (2 ∷ []) ∷ []; rest = [] }) read_int64_run
