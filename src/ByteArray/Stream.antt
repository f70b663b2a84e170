-- ===== src/ByteArray/Stream.antt =====
-- A buffer of saturn/bytearray.cc as a stream of bytes: what was stored, and what is still to be read.
use native.Mathlib.Nat.{le_refl}
use saturn.Base.{
  ℕ, zero, suc, ◌+◌, ◌-◌, ◌≤◌, ◌<◌, ◌≡◌, refl, sym, ap, ap₂, ◌∙◌, List, [], ◌∷◌, ◌++◌, length, take,
  drop, splice, arith, length-append, length-take_le, length-drop, take-append_le, take-append_ge,
  drop-append_ge, drop-append_le, take-length, take_all, drop-drop, drop_all,
}
use saturn.ByteArray.{ByteArray, ok, contents, set_position, write, read}
use saturn.ByteArray.Invariant.{IsValid}
use saturn.ByteArray.Transfer.{write-Wrote, size_after}
use saturn.ByteArray.Reading.{read-DidRead}
use saturn.ByteArray.Seek.{set_position-Moved}
use saturn.ByteArray.RoundTrip.{length-contents}

-- The bytes below `size`.
abbrev pub stored : ByteArray → List ℕ
stored b = take b.size (contents b)

-- The bytes from the position to `size`.
abbrev pub unread : ByteArray → List ℕ
unread b = take (b.size - b.position) (drop b.position (contents b))

drop-take : (n m : ℕ) (xs : List ℕ) → drop n (take m xs) ≡ take (m - n) (drop n xs)
drop-take zero m xs = ap (λ k. take k xs) {x = m} {y = m - 0} (omega arith)
drop-take (suc n) zero xs = ap (λ k. take k (drop (suc n) xs)) {x = 0} {y = 0 - suc n} (omega arith)
drop-take (suc n) (suc m) [] = sym (take_all (suc m - suc n) [] (omega arith))
drop-take (suc n) (suc m) (x ∷ xs) = drop-take n m xs ∙ ap (λ k. take k (drop n xs)) (omega arith)

take-take : (n m : ℕ) (xs : List ℕ) → n ≤ m → take n (take m xs) ≡ take n xs
take-take zero m xs h = refl
take-take (suc n) zero xs h = absurd (omega arith)
take-take (suc n) (suc m) [] h = refl
take-take (suc n) (suc m) (x ∷ xs) h = ap (λ t. x ∷ t) (take-take n m xs (omega arith))

pub unread-stored : (b : ByteArray) → unread b ≡ drop b.position (stored b)
unread-stored b = sym (drop-take b.position b.size (contents b))

pub length-unread : (b : ByteArray) → IsValid b → length (unread b) ≡ b.size - b.position
length-unread b v =
    length-take_le (b.size - b.position) (drop b.position (contents b))
      (omega (arith, length-drop b.position (contents b), length-contents b v, v.within))

-- `c` is `b` with `buf` written behind all its data.
pub record Appended (b : ByteArray) (buf : List ℕ) (c : ByteArray) : Type 0 where
  pub valid : IsValid c
  pub same_base : c.base_size ≡ b.base_size
  pub same_endian : c.endian ≡ b.endian
  pub at_end : c.position ≡ c.size
  pub grown : c.size ≡ b.size + length buf
  pub bytes : stored c ≡ stored b ++ buf

stored_after :
    (b : ByteArray) (buf extra : List ℕ)
    → IsValid b
    → take (b.size + length buf) (splice b.size buf (contents b ++ extra)) ≡ stored b ++ buf
stored_after b buf extra v =
    let low : b.size ≤ length (contents b) = omega (arith, length-contents b v, v.within) in
    let cut : length (stored b) ≡ b.size = length-take_le b.size (contents b) low in
    rw
      (
        take-append_le b.size (contents b) extra low,
        take-append_ge (b.size + length buf) (stored b)
            (buf ++ drop (b.size + length buf) (contents b ++ extra)) (omega arith),
      )
      (ap (λ t. stored b ++ t)
        (ap (λ k. take k (buf ++ drop (b.size + length buf) (contents b ++ extra)))
            {x = b.size + length buf - length (stored b)} {y = length buf} (omega arith)
          ∙ take-append_le (length buf) buf (drop (b.size + length buf) (contents b ++ extra))
              (le_refl _)
          ∙ take-length buf))

-- A write at the end of the data appends to it.
pub write-Appended :
    (memory : ℕ → ℕ) (buf : List ℕ) (b : ByteArray)
    → IsValid b
    → b.position ≡ b.size
    → (c : ByteArray) × (write memory buf b ≡ ok c) × Appended b buf c
write-Appended memory buf b v e =
    let (c, written, w) = write-Wrote memory buf b v in
    let grown : c.size ≡ b.size + length buf =
      w.size
      ∙ ap (λ p. size_after b.size (p + length buf)) e
      ∙ size_after_end b.size (length buf) in
    (
      c,
      written,
      record {
        valid = w.valid;
        same_base = w.same_base;
        same_endian = w.same_endian;
        at_end = omega (arith, w.position);
        grown = grown;
        bytes =
            ap₂ take grown (w.bytes ∙ ap (λ p. splice p buf (contents b ++ w.extra)) e)
            ∙ stored_after b buf w.extra v;
      },
    )
  where
    size_after_end : (s n : ℕ) → size_after s (s + n) ≡ s + n
    size_after_end s n = ground arith

-- `c` is `b` with the first unread bytes taken off, so that `ys` are left.
pub record Advanced (b : ByteArray) (ys : List ℕ) (c : ByteArray) : Type 0 where
  pub valid : IsValid c
  pub same_base : c.base_size ≡ b.base_size
  pub same_endian : c.endian ≡ b.endian
  pub left : unread c ≡ ys

-- A read of unread bytes takes them off the stream.
pub read-Advanced :
    (b : ByteArray) (xs ys : List ℕ)
    → IsValid b
    → 0 < length xs
    → unread b ≡ xs ++ ys
    → (image : List ℕ) × (c : ByteArray) × (read (length xs) b ≡ ok (image, c))
      × (take (length xs) image ≡ xs)
      × Advanced b ys c
read-Advanced b xs ys v h e =
    let n : ℕ = length xs in
    let total : n + length ys ≡ b.size - b.position =
      sym (length-append xs ys) ∙ ap length (sym e) ∙ length-unread b v in
    let (image, c, found, r, end) = read-DidRead n b v h (omega arith) in
    let data_from : List ℕ = drop b.position (contents b) in
    let some_left : n ≤ length data_from =
      omega
        (arith, length-drop b.position (contents b), length-contents b v, v.within, v.reached) in
    (
      image,
      c,
      found,
      r.right
          ∙ sym (take-take n (b.size - b.position) data_from (omega arith))
          ∙ ap (take n) e
          ∙ take-append_le n xs ys (le_refl _)
          ∙ take-length xs,
      record {
        valid = r.valid;
        same_base = r.same_base;
        same_endian = r.same_endian;
        left =
            ap (λ m. take m (drop c.position (contents c))) {x = c.size - c.position}
              {y = b.size - b.position - n} (omega (arith, r.position, r.same_size))
            ∙ ap₂ (λ p t. take (b.size - b.position - n) (drop p t)) r.position r.bytes
            ∙ ap (take (b.size - b.position - n)) (sym (drop-drop n b.position (contents b)))
            ∙ sym (drop-take n (b.size - b.position) data_from)
            ∙ ap (drop n) e
            ∙ drop-append_le n xs ys (le_refl _)
            ∙ ap (λ t. t ++ ys) (drop_all n xs (le_refl _));
      },
    )

-- After an append, `setPosition` back to where it began leaves just the appended bytes to be read.
pub rewind-unread :
    (b c : ByteArray) (buf : List ℕ)
    → IsValid b
    → Appended b buf c
    → (d : ByteArray) × (set_position b.size c ≡ ok d) × (d.position ≡ b.size) × Advanced c buf d
rewind-unread b c buf v w =
    let (d, moved, m) =
      set_position-Moved b.size c w.valid (omega (arith, w.grown, w.valid.within)) in
    let same_size : d.size ≡ c.size = m.size ∙ size_kept c.size b.size (omega (arith, w.grown)) in
    (
      d,
      moved,
      m.position,
      record {
        valid = m.valid;
        same_base = m.same_base;
        same_endian = m.same_endian;
        left =
            unread-stored d
            ∙ ap₂ drop m.position (ap₂ take same_size m.bytes ∙ w.bytes)
            ∙ drop-append_ge b.size (stored b) buf (omega (arith, cut))
            ∙ ap (λ k. drop k buf) {x = b.size - length (stored b)} {y = 0} (omega (arith, cut));
      },
    )
  where
    cut : length (stored b) ≡ b.size
    cut = length-take_le b.size (contents b) (omega (arith, length-contents b v, v.within))

    size_kept : (s p : ℕ) → p ≤ s → size_after s p ≡ s
    size_kept s p h = ground arith
