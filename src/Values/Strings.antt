-- ===== src/Values/Strings.antt =====
-- The strings of saturn/bytearray.cc written and read back.
use native.Mathlib.Nat.{mod-eq_of_lt}
use saturn.Base.{ℕ, ◌+◌, ◌%◌, ◌^◌, ◌<◌, ◌≡◌, sym, subst, List, ◌++◌, length}
use saturn.ByteArray.{ByteArray, ok, fault, Endian, write}
use saturn.ByteArray.Invariant.{IsValid}
use saturn.ByteArray.Reading.{read_zero_at_end}
use saturn.ByteArray.Stream.{write-Appended}
use saturn.Codec.Fixed.{wire}
use saturn.Codec.Varint.{groups}
use saturn.Values.{
  write_fixed, write_uint64, write_string_fixed, write_string_vint, read_fixed, read_uint64,
  read_local, read_chars, read_string_fixed, read_string_vint,
}
use saturn.Values.RoundTrip.{Writes, Reads, ReadsBack, round_trip, Writes-then, Reads-then}
use saturn.Values.Loops.{write_fixed-Writes, read_fixed-Reads, read_local-exact, node_of_one}
use saturn.Values.Numbers.{write_uint64-Writes, read_uint64-Reads}

read_chars-Reads :
    (host : Endian) (s : List ℕ)
    → 0 < length s
    → Reads (λ b. read_chars host (length s, b)) (λ e. s) s
unfolding read_chars
read_chars-Reads host s h b ys one ok_b e =
    read_local-exact b s ys ok_b h (node_of_one b (b.position + length s) ok_b one) e

-- In a buffer with nodes of one byte, a string of 1 to `256 ^ k - 1` characters comes back through its length in `k` bytes.
pub read_string_fixed-write_string_fixed :
    (host : Endian) (memory : ℕ → ℕ) (k : ℕ) (s : List ℕ) (b : ByteArray)
    → 0 < k
    → 0 < length s
    → length s < 256 ^ k
    → b.base_size ≡ 1
    → IsValid b
    → b.position ≡ b.size
    → ReadsBack b (write_string_fixed host memory k s) (read_string_fixed host k) s
unfolding write_string_fixed read_string_fixed
read_string_fixed-write_string_fixed host memory k s b hk hs fits =
    round_trip _ _ (λ e. wire e k (length s) ++ s) s b
      (Writes-then (write_fixed host memory k (length s % 256 ^ k)) (write memory s)
        (λ e. wire e k (length s)) (λ e. s)
        (subst (λ n. Writes (write_fixed host memory k n) (λ e. wire e k (length s)))
          (sym (mod-eq_of_lt fits)) (write_fixed-Writes host memory k (length s)))
        (write-Appended memory s))
      (Reads-then (read_fixed host k) (read_chars host) (λ e. wire e k (length s)) (λ e. s)
        (length s) s (read_fixed-Reads host k (length s) hk fits) (read_chars-Reads host s hs))

-- And through its length as a varint.
pub read_string_vint-write_string_vint :
    (host : Endian) (memory : ℕ → ℕ) (s : List ℕ) (b : ByteArray)
    → 0 < length s
    → length s < 2 ^ 64
    → b.base_size ≡ 1
    → IsValid b
    → b.position ≡ b.size
    → ReadsBack b (write_string_vint host memory s) (read_string_vint host) s
unfolding write_string_vint read_string_vint
read_string_vint-write_string_vint host memory s b hs fits =
    round_trip _ _ (λ e. groups 9 (length s) ++ s) s b
      (Writes-then (write_uint64 host memory (length s)) (write memory s) (λ e. groups 9 (length s))
        (λ e. s) (write_uint64-Writes host memory (length s) fits) (write-Appended memory s))
      (Reads-then (read_uint64 host) (read_chars host) (λ e. groups 9 (length s)) (λ e. s)
        (length s) s (read_uint64-Reads host (length s) fits) (read_chars-Reads host s hs))

-- An empty string whose length field ends at the end of the capacity is not read back: the read of
-- its characters uses the null `m_cur`.
pub read_string_fixed_empty :
    (host : Endian) (k : ℕ) (b c : ByteArray)
    → read_fixed host k b ≡ ok (0, c)
    → IsValid c
    → c.position ≡ c.capacity
    → read_string_fixed host k b ≡ fault
unfolding read_string_fixed read_chars read_local
read_string_fixed_empty host k b c e v full = rw (e, read_zero_at_end c v full)
