-- ===== src/Http/ChunkLaws.antt =====
-- What the loop over the chunks in saturn/http/http_connection.cc makes of their bytes.
use mathlib.Core.List.{append_assoc}
use saturn.Base.{
  ℕ, zero, suc, ◌+◌, ◌-◌, ◌≤◌, ◌<◌, ◌≡◌, inl, inr, refl, sym, ap, ◌∙◌, true, false, min, some, List,
  [], ◌∷◌, ◌++◌, length, take, leb, le→leb, lt→leb, arith, length-append, take_all, take-append_le,
  length-take_le,
}
use saturn.Stream.{Received}
use saturn.Stream.Whole.{IsReader}
use saturn.Http.Receive.{Engine, recv_head}
use saturn.Http.ReceiveLaws.{Ends, Received-cases, nonzero}
use saturn.Http.Chunks.{Client, recv_left, chunk_read, recv_chunk, chunks_closed, recv_chunks}

module _ {ℓ} {W : Type ℓ} (contents : W → List ℕ) (read : ℕ → W → Received × W) (size : ℕ) where
  recv_left-reads :
      (fuel left : ℕ) (w : W)
      → IsReader read contents
      → 0 < size
      → left ≤ fuel
      → left ≤ length (contents w)
      → (rest : List ℕ) × (w' : W) × (recv_left read size fuel left w ≡ (some rest, w'))
        × (length rest ≡ left)
        × (contents w ≡ rest ++ contents w')
  unfolding recv_left
  recv_left-reads zero left w g s f h = ([], w, refl, omega arith, refl)
  recv_left-reads (suc fuel) zero w g s f h = ([], w, refl, refl, refl)
  recv_left-reads (suc fuel) (suc left) w g s f h =
      let asked : 0 < min (suc left) size = ground arith in
      let (bs, e, pos, fits, split) = g.gives (min (suc left) size) w asked (omega arith) in
      let w₁ = (read (min (suc left) size) w).1 in
      let total : length (contents w) ≡ length bs + length (contents w₁) =
        ap length split ∙ length-append bs (contents w₁) in
      let fit : length bs ≤ suc left = ground arith in
      let (rest, w', e', long, split') =
        recv_left-reads fuel (suc left - length bs) w₁ g s (omega arith) (omega arith) in
      let both = length-append bs rest in
      (
        bs ++ rest,
        w',
        rw (e, nonzero (length bs) pos, e', recv_left) (rw e' refl),
        omega arith,
        split ∙ ap (λ l. bs ++ l) split' ∙ sym (append_assoc bs rest (contents w')),
      )

  -- A buffer that holds a chunk and the two bytes behind it, and nothing else: the chunk is appended and the
  -- buffer is left empty.
  pub recv_chunk-exact :
      (chunk : List ℕ) (a b : ℕ) (w : W)
      → recv_chunk read size (length chunk) (chunk ++ a ∷ b ∷ []) w ≡ chunk_read chunk [] w
  unfolding recv_chunk
  recv_chunk-exact chunk a b w =
      let all = length-append chunk (a ∷ b ∷ []) in
      let two : leb 2 (length (chunk ++ a ∷ b ∷ [])) ≡ true = ground arith in
      let fits : leb (length chunk) (length (chunk ++ a ∷ b ∷ []) - 2) ≡ true = ground arith in
      let none_left : length (chunk ++ a ∷ b ∷ []) - 2 - length chunk ≡ 0 = omega arith in
      rw (two, fits, none_left, recv_chunk)
        (ap (λ l. chunk_read l [] w)
          (take-append_le (length chunk) chunk (a ∷ b ∷ []) (omega arith)
            ∙ take_all (length chunk) chunk (omega arith)))

  -- A buffer that ends inside a chunk of `n` bytes, or in the two bytes behind it, over a stream that gives at
  -- least one byte each time while any is left: what is appended has the chunk's length, but it is the buffer
  -- without its last two bytes and then the next bytes of the stream.
  pub recv_chunk-split :
      (n : ℕ) (buffer : List ℕ) (w : W)
      → IsReader read contents
      → 0 < size
      → 2 ≤ length buffer
      → length buffer < n + 2
      → n + 2 ≤ length buffer + length (contents w)
      → (rest : List ℕ) × (w' : W) × (recv_chunk read size n buffer w
          ≡ chunk_read (take (length buffer - 2) buffer ++ rest) [] w')
        × (length (take (length buffer - 2) buffer ++ rest) ≡ n)
        × (contents w ≡ rest ++ contents w')
  unfolding recv_chunk
  recv_chunk-split n buffer w g s two short enough =
      let len = length buffer - 2 in
      let (rest, w', e, long, split) =
        recv_left-reads (n - len) (n - len) w g s (omega arith) (omega arith) in
      let y : leb 2 (length buffer) ≡ true = le→leb 2 (length buffer) two in
      let x : leb n len ≡ false = lt→leb n len (omega arith) in
      let both = length-append (take len buffer) rest in
      let first = length-take_le len buffer (omega arith) in
      (rest, w', rw (y, x, e, recv_chunk) (rw e refl), omega arith, split)

  -- When the stream has nothing more to give, the loop over the chunks closes it, whatever is in the buffer:
  -- chunks that have come in with the head are never looked at.
  pub recv_chunks-closed {κ} :
      {P : Type κ} (engine : Engine P) (client : Client P) (inner fuel : ℕ) (body buffer : List ℕ)
      (p : P) (w : W)
      → Ends read contents
      → contents w ≡ []
      → (w' : W) × (recv_chunks engine client read size (suc inner) (suc fuel) body buffer p w
          ≡ chunks_closed w')
  unfolding recv_chunks recv_head
  recv_chunks-closed engine client inner fuel body buffer p w d e =
      elim (Received-cases (read (size - length buffer) w).0 (d.ends (size - length buffer) w e)) [
        | inl e' ↦ ((read (size - length buffer) w).1, rw (e', recv_head, recv_chunks) refl)
        | inr (len, _, e') ↦
            ((read (size - length buffer) w).1, rw (e', recv_head, recv_chunks) refl)
      ]
