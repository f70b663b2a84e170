-- ===== src/Tests/Buffers.antt =====
-- The buffer of saturn/bytearray.cc at concrete inputs.
use saturn.Base.{ℕ, ◌+◌, ◌%◌, ◌<◌, ◌≡◌, refl, List, [], ◌∷◌, length, take, arith}
use saturn.ByteArray.{
  ByteArray, ok, big, new_node, new_chain, make, grow, add_capacity, write_loop, write, read_loop,
  read_from, read, set_position,
}
use saturn.ByteArray.Invariant.{IsValid}
use saturn.ByteArray.Transfer.{Wrote, write-Wrote}
use saturn.ByteArray.Reading.{DidRead, read-DidRead, read_overruns}
use saturn.ByteArray.RoundTrip.{read-write}
use saturn.ByteArray.Vectors.{Iovec, get_read_buffers, clipped, Covers, get_read_buffers-Covers}

abbrev zeros : ℕ → ℕ
zeros i = 0

abbrev six : List ℕ
six = 1 ∷ 2 ∷ 3 ∷ 4 ∷ 5 ∷ 6 ∷ []

-- A new buffer with nodes of 4 bytes.
abbrev small : ByteArray
small = record {
  base_size = 4;
  position = 0;
  capacity = 4;
  size = 0;
  endian = big;
  front = [];
  rest = (0 ∷ 0 ∷ 0 ∷ 0 ∷ []) ∷ [];
}

small-IsValid : IsValid small
small-IsValid = omega arith

-- Six bytes stored, and the position on the second.
abbrev filled : ByteArray
filled = record {
  base_size = 4;
  position = 1;
  capacity = 8;
  size = 6;
  endian = big;
  front = [];
  rest = (1 ∷ 2 ∷ 3 ∷ 4 ∷ []) ∷ (5 ∷ 6 ∷ 0 ∷ 0 ∷ []) ∷ [];
}

filled-IsValid : IsValid filled
filled-IsValid = omega arith

-- Every byte written, and the position at the end of the capacity.
abbrev full : ByteArray
full = record {
  base_size = 4;
  position = 4;
  capacity = 4;
  size = 4;
  endian = big;
  front = (1 ∷ 2 ∷ 3 ∷ 4 ∷ []) ∷ [];
  rest = [];
}

full-IsValid : IsValid full
full-IsValid = omega arith

make-small : make zeros 4 ≡ small
unfolding make new_node
make-small = refl

write-six :
    write zeros six small
    ≡ ok (record small {
      position = 6;
      capacity = 8;
      size = 6;
      front = (1 ∷ 2 ∷ 3 ∷ 4 ∷ []) ∷ [];
      rest = (5 ∷ 6 ∷ 0 ∷ 0 ∷ []) ∷ [];
    })
unfolding write add_capacity grow new_chain new_node write_loop
write-six = refl

-- Two bytes are asked for, and three are copied.
read_two : read 2 filled ≡ ok (2 ∷ 3 ∷ 4 ∷ [], record filled { position = 3 })
unfolding read read_from read_loop
read_two = refl

write-Wrote_example : (c : ByteArray) × (write zeros six filled ≡ ok c) × Wrote filled six c
write-Wrote_example = write-Wrote zeros six filled filled-IsValid

read-DidRead_example :
    (image : List ℕ) × (c : ByteArray) × (read 4 filled ≡ ok (image, c))
    × DidRead filled 4 image c
    × ((1 + length image) % 4 ≡ 0)
read-DidRead_example = read-DidRead 4 filled filled-IsValid (omega arith) (omega arith)

read_overruns_example : 2 < 3
unfolding read read_from read_loop
read_overruns_example =
    read_overruns 2 filled {image = 2 ∷ 3 ∷ 4 ∷ []} {c = record filled { position = 3 }}
      filled-IsValid (omega arith) (omega arith) (λ e. absurd (omega arith)) refl

read-write_example :
    (c d e : ByteArray) × (image : List ℕ) × (write zeros six filled ≡ ok c)
    × (set_position 1 c ≡ ok d)
    × (read 6 d ≡ ok (image, e))
    × (take 6 image ≡ six)
    × (e.position ≡ c.position)
    × IsValid e
read-write_example = read-write zeros six filled filled-IsValid (omega arith)

get_read_buffers-Covers_example :
    (is : List Iovec) × (get_read_buffers 9 filled ≡ ok (clipped 9 filled, is))
    × Covers filled.base_size 1 (clipped 9 filled) is
get_read_buffers-Covers_example = get_read_buffers-Covers 9 filled filled-IsValid
