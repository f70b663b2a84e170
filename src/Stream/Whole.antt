-- ===== src/Stream/Whole.antt =====
-- That the loops of saturn/stream.cc read and write the whole, however the stream splits it.
use mathlib.Core.List.{append_assoc, append-nil}
use saturn.Base.{
  take-append-drop, length-drop, ℕ, zero, suc, ◌+◌, ◌-◌, ◌^◌, ◌%◌, ◌≤◌, ◌<◌, ◌≡◌, refl, sym, ap,
  ◌∙◌, false, List, [], ◌∷◌, ◌++◌, length, length-append, take, drop, ◌==◌, arith,
}
use saturn.Stream.{
  Received, received, Sent, sent, read_fix_loop, read_fix_size, write_fix_loop, write_fix_size,
}

-- A stream that is read: `contents` is what is still to come. `read` is asked for some bytes and gives at
-- least one of them and no more than were asked for, while there are any.
pub record IsReader {ℓ} {W : Type ℓ} (read : ℕ → W → Received × W) (contents : W → List ℕ)
    : Type ℓ where
  pub gives :
      (n : ℕ) (w : W)
      → 0 < n
      → 0 < length (contents w)
      → (bs : List ℕ) × ((read n w).0 ≡ received bs)
        × (0 < length bs)
        × (length bs ≤ n)
        × (contents w ≡ bs ++ contents (read n w).1)

-- A stream that is written: `written` is what it has taken. `write` takes at least one byte of those it is
-- given, and no more than these.
pub record IsWriter {ℓ} {W : Type ℓ} (write : List ℕ → W → Sent × W) (written : W → List ℕ)
    : Type ℓ where
  pub takes :
      (buffer : List ℕ) (w : W)
      → 0 < length buffer
      → (n : ℕ) × ((write buffer w).0 ≡ sent n)
        × (0 < n)
        × (n ≤ length buffer)
        × (written (write buffer w).1 ≡ written w ++ take n buffer)

nonzero : (n : ℕ) → 0 < n → (n == 0) ≡ false
nonzero n h = ground arith

-- What a loop has done that was to read `left` bytes.
abbrev pub ReadAll {ℓ} : {W : Type ℓ} → (W → List ℕ) → ℕ → ℕ → W → ℕ × List ℕ × W → Type 0
ReadAll contents size left w r =
    (r.0 ≡ size % 2 ^ 32) × (length r.1 ≡ left) × (contents w ≡ r.1 ++ contents r.2)

pub read_fix_loop-ReadAll {ℓ} :
    {W : Type ℓ} (read : ℕ → W → Received × W) (contents : W → List ℕ)
    (reader : IsReader read contents) (size fuel left : ℕ) (w : W)
    → left ≤ fuel
    → left ≤ length (contents w)
    → ReadAll contents size left w (read_fix_loop read size fuel left w)
unfolding read_fix_loop
read_fix_loop-ReadAll read contents reader size zero left w f h = (refl, omega (arith, f), refl)
read_fix_loop-ReadAll read contents reader size (suc fuel) zero w f h = (refl, refl, refl)
read_fix_loop-ReadAll read contents reader size (suc fuel) (suc left) w f h =
    let (bs, e, p, q, split) = reader.gives (suc left) w (omega arith) (omega (arith, h)) in
    let w' = (read (suc left) w).1 in
    let total : length (contents w) ≡ length bs + length (contents w') =
      ap length split ∙ length-append bs (contents w') in
    let (code, long, rest) =
      read_fix_loop-ReadAll read contents reader size fuel (suc left - length bs) w'
        (omega (arith, f, p)) (omega (arith, h, total)) in
    let r = read_fix_loop read size fuel (suc left - length bs) w' in
    let counted : length (bs ++ r.1) ≡ length bs + length r.1 = length-append bs r.1 in
    rw (e, read_fix_loop)
      (rw (nonzero (length bs) p) (
        code,
        omega (arith, counted, long, p, q),
        split ∙ ap (λ l. bs ++ l) rest ∙ sym (append_assoc bs r.1 (contents r.2)),
      ))

-- Over a stream that gives at least one byte each time while any is left, and no more than it is asked for,
-- `readFixSize` returns the size when as many bytes are to come: it has read just that many, and they and
-- what is still to come are what was to come before.
pub read_fix_size-ReadAll {ℓ} :
    {W : Type ℓ} (read : ℕ → W → Received × W) (contents : W → List ℕ)
    (reader : IsReader read contents) (size : ℕ) (w : W)
    → size < 2 ^ 31
    → size ≤ length (contents w)
    → let r = read_fix_size read size w in
      (r.0 ≡ size) × (length r.1 ≡ size) × (contents w ≡ r.1 ++ contents r.2)
unfolding read_fix_size
read_fix_size-ReadAll read contents reader size w b h =
    let (code, long, rest) =
      read_fix_loop-ReadAll read contents reader size size size w (omega arith) h in
    let small : size % 2 ^ 32 ≡ size = omega (arith, b) in (code ∙ small, long, rest)

-- What a loop has done that was to write the buffer.
abbrev WroteAll {ℓ} : {W : Type ℓ} → (W → List ℕ) → ℕ → List ℕ → W → ℕ × W → Type 0
WroteAll written size buffer w r = (r.0 ≡ size % 2 ^ 32) × (written r.1 ≡ written w ++ buffer)

write_fix_loop-WroteAll {ℓ} :
    {W : Type ℓ} (write : List ℕ → W → Sent × W) (written : W → List ℕ)
    (writer : IsWriter write written) (size fuel : ℕ) (buffer : List ℕ) (w : W)
    → length buffer ≤ fuel
    → WroteAll written size buffer w (write_fix_loop write size fuel buffer w)
unfolding write_fix_loop
write_fix_loop-WroteAll write written writer size zero [] w f = (refl, sym (append-nil (written w)))
write_fix_loop-WroteAll write written writer size zero (c ∷ cs) w f = absurd (omega (arith, f))
write_fix_loop-WroteAll write written writer size (suc fuel) [] w f =
    (refl, sym (append-nil (written w)))
write_fix_loop-WroteAll write written writer size (suc fuel) (c ∷ cs) w f =
    let (n, e, p, q, took) = writer.takes (c ∷ cs) w (omega arith) in
    let w' = (write (c ∷ cs) w).1 in
    let shorter : length (drop n (c ∷ cs)) ≡ suc (length cs) - n = length-drop n (c ∷ cs) in
    let (code, all) =
      write_fix_loop-WroteAll write written writer size fuel (drop n (c ∷ cs)) w'
        (omega (arith, f, p, shorter)) in
    rw (e, write_fix_loop)
      (rw (nonzero n p) (
        code,
        all
            ∙ ap (λ l. l ++ drop n (c ∷ cs)) took
            ∙ append_assoc (written w) (take n (c ∷ cs)) (drop n (c ∷ cs))
            ∙ ap (λ l. written w ++ l) (take-append-drop n (c ∷ cs)),
      ))

-- Over a stream that takes at least one byte each time, and no more than it is given, `writeFixSize` returns
-- the size, and the stream has taken the whole buffer behind what it had taken before.
pub write_fix_size-WroteAll {ℓ} :
    {W : Type ℓ} (write : List ℕ → W → Sent × W) (written : W → List ℕ)
    (writer : IsWriter write written) (buffer : List ℕ) (w : W)
    → length buffer < 2 ^ 31
    → let r = write_fix_size write buffer w in
      (r.0 ≡ length buffer) × (written r.1 ≡ written w ++ buffer)
unfolding write_fix_size
write_fix_size-WroteAll write written writer buffer w b =
    let (code, all) =
      write_fix_loop-WroteAll write written writer (length buffer) (length buffer) buffer w
        (omega arith) in
    let small : length buffer % 2 ^ 32 ≡ length buffer = omega (arith, b) in (code ∙ small, all)
