-- ===== src/Stream.antt =====
-- saturn/stream.cc: reading and writing a whole number of bytes over the `read` and `write` of a stream, which
-- are parameters over the states `W` of the stream.
pub mod Whole
use saturn.Base.{
  ℕ, zero, suc, ◌+◌, ◌-◌, ◌*◌, ◌^◌, ◌%◌, ◌≤◌, ◌<◌, List, [], ◌∷◌, ◌++◌, length, drop, ◌==◌,
  if◌then◌else◌,
}

-- What `read` returns: so many bytes, none at the end of the stream, or an error, by its negative `int`.
pub data Received : Type 0 where
  received : (bytes_read : List ℕ) → Received
  read_error : (len : ℕ) → Received

-- What `write` returns: how many bytes it has taken, or an error.
pub data Sent : Type 0 where
  sent : (n : ℕ) → Sent
  write_error : (len : ℕ) → Sent

-- The loop of `readFixSize` with `left` bytes to read, in `fuel` rounds: the `int` that is returned, the
-- bytes that have been stored, and the stream. Both forms are this one: the first stores them in the buffer
-- from `offset` on, the second appends them to the byte array.
unfoldable pub read_fix_loop {ℓ} :
    {W : Type ℓ} → (ℕ → W → Received × W) → ℕ → ℕ → ℕ → W → ℕ × List ℕ × W
read_fix_loop read size zero left w = (size % 2 ^ 32, [], w)
read_fix_loop read size (suc fuel) zero w = (size % 2 ^ 32, [], w)
read_fix_loop read size (suc fuel) (suc left) w =
    let (r, w') = read (suc left) w in
    elim r [
      | read_error len ↦ (len, [], w')
      | received bs ↦
          let rest = read_fix_loop read size fuel (suc left - length bs) w' in
          if length bs == 0 then (0, [], w') else (rest.0, bs ++ rest.1, rest.2)
    ]

-- A round that does not return reads at least one byte, so as many rounds as bytes are enough.
unfoldable pub read_fix_size {ℓ} : {W : Type ℓ} → (ℕ → W → Received × W) → ℕ → W → ℕ × List ℕ × W
read_fix_size read size w = read_fix_loop read size size size w

-- The loop of `writeFixSize` with `buffer` to write.
unfoldable pub write_fix_loop {ℓ} :
    {W : Type ℓ} → (List ℕ → W → Sent × W) → ℕ → ℕ → List ℕ → W → ℕ × W
write_fix_loop write size zero buffer w = (size % 2 ^ 32, w)
write_fix_loop write size (suc fuel) [] w = (size % 2 ^ 32, w)
write_fix_loop write size (suc fuel) (c ∷ cs) w =
    let (r, w') = write (c ∷ cs) w in
    elim r [
      | write_error len ↦ (len, w')
      | sent n ↦
          let rest = write_fix_loop write size fuel (drop n (c ∷ cs)) w' in
          if n == 0 then (0, w') else rest
    ]

unfoldable pub write_fix_size {ℓ} : {W : Type ℓ} → (List ℕ → W → Sent × W) → List ℕ → W → ℕ × W
write_fix_size write buffer w = write_fix_loop write (length buffer) (length buffer) buffer w
