-- ===== src/Codec/Fixed.antt =====
-- The fixed-width encodings of saturn/bytearray.cc.
use mathlib.Core.List.{reverse-reverse, reverse-cons}
use native.Mathlib.Nat.{pow-suc}
use saturn.Base.{
  ℕ, zero, suc, ◌+◌, ◌*◌, ◌/◌, ◌%◌, ◌^◌, ◌<◌, ◌≡◌, refl, ap, ap₂, ◌∙◌, List, [], ◌∷◌, reverse, All,
  All-append, length, length-append, arith,
}
use saturn.ByteArray.{Endian, little, big}
use saturn.Codec.{le_bytes, of_le_bytes, in_memory, of_memory, byteswap, encode_fixed, decode_fixed}

abbrev pub IsByte : ℕ → Type 0
IsByte x = x < 256

le_bytes-IsByte : (k v : ℕ) → All IsByte (le_bytes k v)
unfolding le_bytes
le_bytes-IsByte zero v = tt
le_bytes-IsByte (suc k) v = (omega arith, le_bytes-IsByte k (v / 256))

length-le_bytes : (k v : ℕ) → length (le_bytes k v) ≡ k
unfolding le_bytes
length-le_bytes zero v = refl
length-le_bytes (suc k) v = ap suc (length-le_bytes k (v / 256))

length-reverse : (xs : List ℕ) → length (reverse xs) ≡ length xs
length-reverse [] = refl
length-reverse (x ∷ xs) =
    omega
      (arith, ap length (reverse-cons x xs), length-append (reverse xs) (x ∷ []), length-reverse xs)

reverse-IsByte : (xs : List ℕ) → All IsByte xs → All IsByte (reverse xs)
reverse-IsByte [] h = tt
reverse-IsByte (x ∷ xs) h =
    rw (reverse-cons x xs)
      (All-append IsByte (reverse xs) (x ∷ []) (reverse-IsByte xs h.1) (h.0, tt))

of_le_bytes-le_bytes : (k v : ℕ) → v < 256 ^ k → of_le_bytes (le_bytes k v) ≡ v
unfolding le_bytes of_le_bytes
of_le_bytes-le_bytes zero v h = omega arith
of_le_bytes-le_bytes (suc k) v h =
    omega (arith, of_le_bytes-le_bytes k (v / 256) (omega (arith, pow-suc 256 k)))

le_bytes-of_le_bytes :
    (k : ℕ) (xs : List ℕ) → length xs ≡ k → All IsByte xs → le_bytes k (of_le_bytes xs) ≡ xs
unfolding le_bytes of_le_bytes
le_bytes-of_le_bytes zero [] e h = refl
le_bytes-of_le_bytes zero (x ∷ xs) e h = absurd (omega arith)
le_bytes-of_le_bytes (suc k) [] e h = absurd (omega arith)
le_bytes-of_le_bytes (suc k) (x ∷ xs) e h =
    ap₂ ◌∷◌ {x = (x + 256 * of_le_bytes xs) % 256} {y = x} (omega arith) (
      ap (le_bytes k) {x = (x + 256 * of_le_bytes xs) / 256} {y = of_le_bytes xs} (omega arith)
      ∙ le_bytes-of_le_bytes k xs (omega arith) h.1)

-- A swapped value has the bytes of the value in the other order.
le_bytes-byteswap : (k v : ℕ) → le_bytes k (byteswap k v) ≡ reverse (le_bytes k v)
unfolding byteswap
le_bytes-byteswap k v =
    le_bytes-of_le_bytes k (reverse (le_bytes k v))
      (length-reverse (le_bytes k v) ∙ length-le_bytes k v)
      (reverse-IsByte (le_bytes k v) (le_bytes-IsByte k v))

-- The order of the bytes on the wire.
abbrev pub wire : Endian → ℕ → ℕ → List ℕ
wire little k v = le_bytes k v
wire big k v = reverse (le_bytes k v)

pub length-wire : (endian : Endian) (k v : ℕ) → length (wire endian k v) ≡ k
length-wire little k v = length-le_bytes k v
length-wire big k v = length-reverse (le_bytes k v) ∙ length-le_bytes k v

-- The bytes written depend on the byte order chosen for the buffer and not on that of the host.
pub encode_fixed-wire :
    (host endian : Endian) (k v : ℕ) → encode_fixed host endian k v ≡ wire endian k v
unfolding encode_fixed in_memory
encode_fixed-wire little little k v = refl
encode_fixed-wire little big k v = le_bytes-byteswap k v
encode_fixed-wire big little k v =
    ap reverse (le_bytes-byteswap k v) ∙ reverse-reverse (le_bytes k v)
encode_fixed-wire big big k v = refl

-- And they are read back on any host.
pub decode_fixed-wire :
    (host endian : Endian) (k v : ℕ)
    → v < 256 ^ k
    → decode_fixed host endian k (wire endian k v) ≡ v
unfolding decode_fixed of_memory byteswap
decode_fixed-wire little little k v h = of_le_bytes-le_bytes k v h
decode_fixed-wire little big k v h =
    ap of_le_bytes (
      ap reverse (
        le_bytes-of_le_bytes k (reverse (le_bytes k v))
          (length-reverse (le_bytes k v) ∙ length-le_bytes k v)
          (reverse-IsByte (le_bytes k v) (le_bytes-IsByte k v)))
      ∙ reverse-reverse (le_bytes k v))
    ∙ of_le_bytes-le_bytes k v h
decode_fixed-wire big little k v h =
    ap of_le_bytes (
      ap reverse (
        le_bytes-of_le_bytes k (reverse (le_bytes k v))
          (length-reverse (le_bytes k v) ∙ length-le_bytes k v)
          (reverse-IsByte (le_bytes k v) (le_bytes-IsByte k v)))
      ∙ reverse-reverse (le_bytes k v))
    ∙ of_le_bytes-le_bytes k v h
decode_fixed-wire big big k v h =
    ap of_le_bytes (reverse-reverse (le_bytes k v)) ∙ of_le_bytes-le_bytes k v h

-- An object of one byte is that byte.
pub of_memory-byte : (host : Endian) (x : ℕ) → of_memory host (x ∷ []) ≡ x
unfolding of_memory of_le_bytes
of_memory-byte little x = omega arith
of_memory-byte big x = omega arith

pub in_memory-byte : (host : Endian) (x : ℕ) → x < 256 → in_memory host 1 x ≡ x ∷ []
unfolding in_memory le_bytes
in_memory-byte little x h = ap (λ (t : ℕ). t ∷ []) {x = x % 256} {y = x} (omega arith)
in_memory-byte big x h = ap (λ (t : ℕ). t ∷ []) {x = x % 256} {y = x} (omega arith)
