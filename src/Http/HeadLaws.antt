-- ===== src/Http/HeadLaws.antt =====
-- The rounds of the loop for a head, which saturn/http/http_session.cc and saturn/http/http_connection.cc share:
-- how the states of the parser and of the stream lead to its end.
use saturn.Base.{
  ℕ, zero, suc, ◌-◌, ◌≤◌, ◌≡◌, refl, ◌⊎◌, inl, inr, true, false, Option, some, List, ◌++◌, length,
  drop, leb, ◌==◌, ==_iff, Option-cases, Bool-cases, leb→le,
}
use saturn.Stream.{Received, received, read_error}
use saturn.Http.Receive.{
  Engine, Head, head_closed, head_read, head_overrun, head_unfinished, after_parse, after_read,
  recv_head,
}

module _ {ℓ κ} {P : Type ℓ} {W : Type κ} (engine : Engine P) (advance : ℕ → Option ℕ)
    (read : ℕ → W → Received × W) (size : ℕ) where
  -- A round, from the buffer, the parser and the stream on: the stream gives bytes behind those in the buffer, the
  -- parser runs on all of them, and what it has parsed is moved out.
  pub record Round (buffer : List ℕ) (p : P) (w : W) (left : List ℕ) (q : P) (v : W)
      : Type (ℓ ⊔ κ) where
    pub got : List ℕ
    pub gives : (read (size - length buffer) w).0 ≡ received got
    pub some_bytes : (length got == 0) ≡ false
    pub rest : (read (size - length buffer) w).1 ≡ v
    pub parser : (engine.run (buffer ++ got) p).0 ≡ q
    pub moved : ℕ
    pub moves : advance (engine.run (buffer ++ got) p).1 ≡ some moved
    pub fits : moved ≤ length (buffer ++ got)
    pub leaves : drop moved (buffer ++ got) ≡ left

  -- The rounds up to an end. The head has been read where the parser is finished, has no error, and the buffer is
  -- not full; nothing is returned at the end of the stream or an error of it, and where the parser has an error or the
  -- buffer is full.
  pub data Parses : List ℕ → P → W → Head P W → Type (ℓ ⊔ κ) where
    at_end :
        (buffer : List ℕ) (p : P) (w : W) (bs : List ℕ)
        → (read (size - length buffer) w).0 ≡ received bs
        → length bs ≡ 0
        → Parses buffer p w (head_closed (read (size - length buffer) w).1)
    at_error :
        (buffer : List ℕ) (p : P) (w : W) (len : ℕ)
        → (read (size - length buffer) w).0 ≡ read_error len
        → Parses buffer p w (head_closed (read (size - length buffer) w).1)
    refused :
        (buffer : List ℕ) (p : P) (w : W) (left : List ℕ) (q : P) (v : W)
        → Round buffer p w left q v
        → (engine.has_error q ≡ true) ⊎ (length left ≡ size)
        → Parses buffer p w (head_closed v)
    finished :
        (buffer : List ℕ) (p : P) (w : W) (left : List ℕ) (q : P) (v : W)
        → Round buffer p w left q v
        → engine.has_error q ≡ false
        → (length left == size) ≡ false
        → engine.is_finished q ≡ true
        → Parses buffer p w (head_read q left v)
    goes_on :
        (buffer : List ℕ) (p : P) (w : W) (left : List ℕ) (q : P) (v : W) (r : Head P W)
        → Round buffer p w left q v
        → engine.has_error q ≡ false
        → (length left == size) ≡ false
        → engine.is_finished q ≡ false
        → Parses left q v r
        → Parses buffer p w r

  -- Where the loop comes to such an end, its rounds lead there.
  abbrev pub Runs : List ℕ → P → W → Head P W → Type (ℓ ⊔ κ)
  Runs buffer p w (head_closed v) = Parses buffer p w (head_closed v)
  Runs buffer p w (head_read q left v) = Parses buffer p w (head_read q left v)
  Runs buffer p w head_overrun = Unit {ℓ ⊔ κ}
  Runs buffer p w head_unfinished = Unit {ℓ ⊔ κ}

  Runs-next :
      (buffer : List ℕ) (p : P) (w : W) (left : List ℕ) (q : P) (v : W) (r : Head P W)
      → Round buffer p w left q v
      → engine.has_error q ≡ false
      → (length left == size) ≡ false
      → engine.is_finished q ≡ false
      → Runs left q v r
      → Runs buffer p w r
  Runs-next buffer p w left q v (head_closed u) d e f g h = goes_on buffer p w left q v _ d e f g h
  Runs-next buffer p w left q v (head_read q' l u) d e f g h =
      goes_on buffer p w left q v _ d e f g h
  Runs-next buffer p w left q v head_overrun d e f g h = tt
  Runs-next buffer p w left q v head_unfinished d e f g h = tt

  after_parse-Runs :
      (again : List ℕ → P → W → Head P W) (buffer : List ℕ) (p : P) (w : W) (left : List ℕ) (q : P)
      (v : W)
      → Round buffer p w left q v
      → Runs left q v (again left q v)
      → Runs buffer p w (after_parse engine size again left q v)
  unfolding after_parse
  after_parse-Runs again buffer p w left q v d h = elim (Bool-cases (engine.has_error q)) [
    | inl e ↦ rw (e, after_parse) (refused buffer p w left q v d (inl e))
    | inr e ↦ elim (Bool-cases (length left == size)) [
      | inl f ↦
          rw (e, f, after_parse)
            (refused buffer p w left q v d (inr ((==_iff (length left) size).0 f)))
      | inr f ↦ elim (Bool-cases (engine.is_finished q)) [
        | inl g ↦ rw (e, f, g, after_parse) (finished buffer p w left q v d e f g)
        | inr g ↦ rw (e, f, g, after_parse) (Runs-next buffer p w left q v _ d e f g h)
      ]
    ]
  ]

  pub recv_head-Runs :
      (fuel : ℕ) (buffer : List ℕ) (p : P) (w : W)
      → Runs buffer p w (recv_head engine advance read size fuel buffer p w)
  unfolding recv_head after_read
  recv_head-Runs zero buffer p w = tt
  recv_head-Runs (suc fuel) buffer p w =
      go (read (size - length buffer) w).0 refl (λ left q v. recv_head-Runs fuel left q v)
    where
      go :
          (r : Received)
          → (read (size - length buffer) w).0 ≡ r
          → ((left : List ℕ) (q : P) (v : W)
              → Runs left q v (recv_head engine advance read size fuel left q v))
          → Runs buffer p w (recv_head engine advance read size (suc fuel) buffer p w)
      go (read_error len) e next = rw (e, recv_head) (at_error buffer p w len e)
      go (received bs) e next = elim (Bool-cases (length bs == 0)) [
        | inl z ↦ rw (e, z, recv_head) (at_end buffer p w bs e ((==_iff (length bs) 0).0 z))
        | inr z ↦ elim (Option-cases (advance (engine.run (buffer ++ bs) p).1)) [
          | inl n ↦ rw (e, z, recv_head) (rw (n, after_read) tt)
          | inr (k, n) ↦ elim (Bool-cases (leb k (length (buffer ++ bs)))) [
            | inr o ↦ rw (e, z, recv_head) (rw (n, o, after_read) tt)
            | inl o ↦
                let q = (engine.run (buffer ++ bs) p).0 in
                let left = drop k (buffer ++ bs) in
                let v = (read (size - length buffer) w).1 in
                rw (e, z, recv_head)
                  (rw (n, o, after_read)
                    (after_parse-Runs (λ left q v. recv_head engine advance read size fuel left q v)
                      buffer p w left q v
                      (record {
                        got = bs;
                        gives = e;
                        some_bytes = z;
                        rest = refl;
                        parser = refl;
                        moved = k;
                        moves = n;
                        fits = leb→le k (length (buffer ++ bs)) o;
                        leaves = refl;
                      })
                      (next left q v)))
          ]
        ]
      ]
