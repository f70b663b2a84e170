-- ===== src/Http/ReceiveLaws.antt =====
-- What the loop for a head and the part for a body in saturn/http/http_session.cc and
-- saturn/http/http_connection.cc do to the bytes of the stream.
use mathlib.Core.List.{append_assoc}
use saturn.Base.{
  ℕ, zero, suc, ◌+◌, ◌-◌, ◌^◌, ◌≤◌, ◌<◌, ◌≡◌, ◌⊎◌, inl, inr, refl, sym, ap, subst, ◌∙◌, false,
  Option, some, List, [], ◌∷◌, ◌++◌, length, take, drop, ◌==◌, arith, Bool-cases, length-append,
  take-append-drop, length-drop, le→leb,
}
use saturn.Stream.{Received, received, read_error}
use saturn.Stream.Whole.{IsReader}
use saturn.Http.Receive.{
  Engine, Head, head_closed, head_read, head_overrun, head_unfinished, after_parse, after_read,
  recv_head,
}

-- A `read` that gives no byte: the end of the stream, or an error, by a negative `int`.
pub data IsEnd : Received → Type 0 where
  at_end : IsEnd (received [])
  at_error : (len : ℕ) → 2 ^ 31 ≤ len → IsEnd (read_error len)

-- At its end the stream gives no byte.
pub record Ends {ℓ} {W : Type ℓ} (read : ℕ → W → Received × W) (contents : W → List ℕ)
    : Type ℓ where
  pub ends : (n : ℕ) (w : W) → contents w ≡ [] → IsEnd (read n w).0

-- What the parser says it has parsed moves the buffer by no more than it has.
pub record IsBounded {ℓ} {P : Type ℓ} (engine : Engine P) (advance : ℕ → Option ℕ) : Type ℓ where
  pub moves :
      (buffer : List ℕ) (p : P)
      → (k : ℕ) × (advance (engine.run buffer p).1 ≡ some k) × (k ≤ length buffer)

pub List-cases {ℓ} :
    {A : Type ℓ} (xs : List A) → (xs ≡ []) ⊎ ((x : A) × (ys : List A) × (xs ≡ x ∷ ys))
List-cases [] = inl refl
List-cases (x ∷ xs) = inr (x, xs, refl)

pub Received-cases :
    (r : Received)
    → IsEnd r
    → (r ≡ received []) ⊎ ((len : ℕ) × (2 ^ 31 ≤ len) × (r ≡ read_error len))
Received-cases _ at_end = inl refl
Received-cases _ (at_error len h) = inr (len, h, refl)

pub nonzero : (n : ℕ) → 0 < n → (n == 0) ≡ false
nonzero n h = ground arith

module _ {ℓ κ} {P : Type ℓ} {W : Type κ} (contents : W → List ℕ) (size most : ℕ) where
  -- What a loop that ends has done to the bytes `all` that were in the buffer and to come: it has taken the
  -- first of them, and the buffer, which is not full, and the stream, which has fewer than `most`, have the others.
  abbrev pub Keeps : List ℕ → Head P W → Type 0
  Keeps all (head_closed w) = Unit
  Keeps all (head_read p left w) =
      (length left < size)
      × (length (contents w) < most)
      × ((taken : List ℕ) × (all ≡ taken ++ (left ++ contents w)))
  Keeps all head_overrun = ⊥
  Keeps all head_unfinished = ⊥

  Keeps-append : (taken rest : List ℕ) (r : Head P W) → Keeps rest r → Keeps (taken ++ rest) r
  Keeps-append taken rest (head_closed w) h = tt
  Keeps-append taken rest (head_read p left w) (short, few, (taken', e)) = (
    short,
    few,
    (
      taken ++ taken',
      ap (λ l. taken ++ l) e ∙ sym (append_assoc taken taken' (left ++ contents w)),
    ),
  )
  Keeps-append taken rest head_overrun h = h
  Keeps-append taken rest head_unfinished h = h

  after_parse-Keeps :
      (engine : Engine P) (again : List ℕ → P → W → Head P W) (left : List ℕ) (p : P) (w : W)
      → length left ≤ size
      → length (contents w) < most
      → (length left < size → Keeps (left ++ contents w) (again left p w))
      → Keeps (left ++ contents w) (after_parse engine size again left p w)
  unfolding after_parse
  after_parse-Keeps engine again left p w h few k = elim (Bool-cases (engine.has_error p)) [
    | inl y ↦ rw (y, after_parse) tt
    | inr n ↦ elim (Bool-cases (length left == size)) [
      | inl full ↦ rw (n, full, after_parse) tt
      | inr x ↦
          let short : length left < size = ground arith in
          elim (Bool-cases (engine.is_finished p)) [
            | inl y ↦ rw (n, x, y, after_parse) (short, few, ([], refl))
            | inr m ↦ rw (n, x, m, after_parse) (k short)
          ]
    ]
  ]

  after_read-Keeps :
      (engine : Engine P) (advance : ℕ → Option ℕ) (again : List ℕ → P → W → Head P W)
      (buffer : List ℕ) (p : P) (w : W)
      → IsBounded engine advance
      → length buffer ≤ size
      → length (contents w) < most
      → ((left : List ℕ)
          → length left < size
          → Keeps (left ++ contents w) (again left (engine.run buffer p).0 w))
      → Keeps (buffer ++ contents w) (after_read engine advance size again buffer p w)
  unfolding after_read
  after_read-Keeps engine advance again buffer p w b h few k =
      let (n, e, fits) = b.moves buffer p in
      let shorter = length-drop n buffer in
      let split : buffer ++ contents w ≡ take n buffer ++ (drop n buffer ++ contents w) =
        ap (λ l. l ++ contents w) (sym (take-append-drop n buffer))
        ∙ append_assoc (take n buffer) (drop n buffer) (contents w) in
      rw (e, le→leb n (length buffer) fits, after_read)
        (subst
          (λ l. Keeps l (after_parse engine size again (drop n buffer) (engine.run buffer p).0 w))
          (sym split)
          (Keeps-append (take n buffer) (drop n buffer ++ contents w) _ (
            after_parse-Keeps engine again (drop n buffer) (engine.run buffer p).0 w (omega arith)
              few (k (drop n buffer)))))

  -- Over a stream that gives at least one byte each time while any is left, and none at its end, and with a
  -- parser that stays in the buffer: the loop ends in as many rounds as bytes are to come and one more, never
  -- reads or moves past the buffer, and where it has read the head, the bytes in the buffer and in the stream
  -- are what was to come less its first bytes, the buffer is not full, and a byte at least has been read.
  pub recv_head-Keeps :
      (engine : Engine P) (advance : ℕ → Option ℕ) (read : ℕ → W → Received × W) (fuel : ℕ)
      (buffer : List ℕ) (p : P) (w : W)
      → IsBounded engine advance
      → IsReader read contents
      → Ends read contents
      → length (contents w) < fuel
      → length (contents w) ≤ most
      → length buffer < size
      → Keeps (buffer ++ contents w) (recv_head engine advance read size fuel buffer p w)
  unfolding recv_head
  recv_head-Keeps engine advance read zero buffer p w b g d f up h = omega arith
  recv_head-Keeps engine advance read (suc fuel) buffer p w b g d f up h =
      elim (List-cases (contents w)) [
        | inl e ↦
            elim (Received-cases (read (size - length buffer) w).0
              (d.ends (size - length buffer) w e)) [
                | inl e' ↦ rw (e', recv_head) tt
                | inr (len, _, e') ↦ rw (e', recv_head) tt
              ]
        | inr (c, cs, e) ↦
            let some_left : 0 < length (contents w) = rw e (omega arith) in
            let (bs, e', pos, fits, split) =
              g.gives (size - length buffer) w (omega arith) some_left in
            let w' = (read (size - length buffer) w).1 in
            let total : length (contents w) ≡ length bs + length (contents w') =
              ap length split ∙ length-append bs (contents w') in
            let both = length-append buffer bs in
            let keeps : Keeps ((buffer ++ bs) ++ contents w') _ =
              after_read-Keeps engine advance
                (λ left q v. recv_head engine advance read size fuel left q v) (buffer ++ bs) p w' b
                (omega arith) (omega arith)
                (λ left short.
                  recv_head-Keeps engine advance read fuel left _ w' b g d (omega arith)
                    (omega arith) short) in
            rw (e', nonzero (length bs) pos, recv_head)
              (subst
                (λ l. Keeps l (
                  after_read engine advance size
                    (λ left q v. recv_head engine advance read size fuel left q v) (buffer ++ bs) p
                    w'))
                (append_assoc buffer bs (contents w') ∙ ap (λ l. buffer ++ l) (sym split)) keeps)
      ]
