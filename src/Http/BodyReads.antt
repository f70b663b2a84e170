-- ===== src/Http/BodyReads.antt =====
-- How a body is read in saturn/http/http_session.cc and saturn/http/http_connection.cc.
use saturn.Base.{
  ℕ, zero, suc, ◌+◌, ◌-◌, ◌^◌, ◌%◌, ◌≤◌, ◌<◌, ◌≡◌, ◌⊎◌, inl, inr, refl, sym, ap, ◌∙◌, Bool, true,
  false, List, ◌++◌, length, take, drop, ltb, leb, ◌&&◌, ltb→le, ltb→lt, arith, Bool-cases,
  length-append, take_all, take-append_ge, take-append_le, drop-append_ge,
}
use saturn.Stream.{Received, read_fix_loop, read_fix_size}
use saturn.Stream.Whole.{IsReader, read_fix_loop-ReadAll}
use saturn.Http.Receive.{Body, no_body, body_closed, body_threw, body_read, not_positive, recv_body}
use saturn.Http.ReceiveLaws.{Ends, List-cases, Received-cases, nonzero}

-- A length that a body has.
abbrev pub IsLength : ℕ → Type 0
IsLength n = (1 ≤ n) × (n < 2 ^ 63)

module _ {ℓ} {W : Type ℓ} (contents : W → List ℕ) (read : ℕ → W → Received × W)
    (reader : IsReader read contents) where
  -- Where fewer bytes are to come than are to be read, the loop returns no positive `int`.
  read_fix_loop-short :
      (size fuel left : ℕ) (w : W)
      → Ends read contents
      → left ≤ fuel
      → length (contents w) < left
      → not_positive (read_fix_loop read size fuel left w).0 ≡ true
  unfolding read_fix_loop not_positive
  read_fix_loop-short size zero left w d f h = absurd (omega arith)
  read_fix_loop-short size (suc fuel) zero w d f h = absurd (omega arith)
  read_fix_loop-short size (suc fuel) (suc left) w d f h = elim (List-cases (contents w)) [
    | inl e ↦ elim (Received-cases (read (suc left) w).0 (d.ends (suc left) w e)) [
      | inl e' ↦ rw (e', read_fix_loop) refl
      | inr (len, big, e') ↦ rw (e', read_fix_loop) (ground arith)
    ]
    | inr (c, cs, e) ↦
        let some_left : 0 < length (contents w) = rw e (omega arith) in
        let (bs, e', pos, fits, split) = reader.gives (suc left) w (omega arith) some_left in
        let w' = (read (suc left) w).1 in
        let total : length (contents w) ≡ length bs + length (contents w') =
          ap length split ∙ length-append bs (contents w') in
        rw (e', nonzero (length bs) pos, read_fix_loop)
          (read_fix_loop-short size fuel (suc left - length bs) w' d (omega arith) (omega arith))
  ]

  -- What has been read as a body of `n` bytes, where `resize` tells whether there is room for it. It is not read
  -- where fewer bytes are to come, or where the number of bytes behind the buffer is not positive as an `int`.
  abbrev pub IsBody : (ℕ → Bool) → ℕ → List ℕ → W → Body W → Type 0
  IsBody resize n left w (no_body w') = ((n ≡ 0) ⊎ (2 ^ 63 ≤ n)) × (contents w' ≡ contents w)
  IsBody resize n left w (body_threw w') = IsLength n × (resize n ≡ false)
  IsBody resize n left w (body_closed w') =
      IsLength n
      × (resize n ≡ true)
      × ((length (left ++ contents w) < n) ⊎ (not_positive ((n - length left) % 2 ^ 32) ≡ true))
  IsBody resize n left w (body_read bs w') =
      IsLength n
      × (resize n ≡ true)
      × (n ≤ length (left ++ contents w))
      × (bs ≡ take n (left ++ contents w))
      × (contents w' ≡ drop (n - length left) (contents w))

  take-length-append : (xs ys : List ℕ) (n : ℕ) → length xs ≡ n → take n (xs ++ ys) ≡ xs
  take-length-append xs ys n e = take-append_le n xs ys (omega arith) ∙ take_all n xs (omega arith)

  drop-length-append : (xs ys : List ℕ) (n : ℕ) → length xs ≡ n → drop n (xs ++ ys) ≡ ys
  drop-length-append xs ys n e =
      drop-append_ge n xs ys (omega arith)
      ∙ ap (λ k. drop k ys) {x = n - length xs} {y = 0} (omega arith)

  -- The rest of a body has been read whole.
  IsBody-rest :
      (resize : ℕ → Bool) (n : ℕ) (left rest : List ℕ) (w w' : W)
      → IsLength n
      → resize n ≡ true
      → length left < n
      → length rest ≡ n - length left
      → contents w ≡ rest ++ contents w'
      → IsBody resize n left w (body_read (left ++ rest) w')
  IsBody-rest resize n left rest w w' l y h long split =
      let all = length-append left (contents w) in
      let two : length (contents w) ≡ length rest + length (contents w') =
        ap length split ∙ length-append rest (contents w') in
      (
        l,
        y,
        omega arith,
        sym (
            take-append_ge n left (contents w) (omega arith)
            ∙ ap (λ l. left ++ take (n - length left) l) split
            ∙ ap (λ l. left ++ l) (take-length-append rest (contents w') (n - length left) long)),
        sym (
            ap (drop (n - length left)) split
            ∙ drop-length-append rest (contents w') (n - length left) long),
      )

  IsBody-left :
      (resize : ℕ → Bool) (n : ℕ) (left : List ℕ) (w : W)
      → IsLength n
      → resize n ≡ true
      → n ≤ length left
      → IsBody resize n left w (body_read (take n left) w)
  IsBody-left resize n left w l y h =
      let all = length-append left (contents w) in
      (
        l,
        y,
        omega arith,
        sym (take-append_le n left (contents w) h),
        ap (λ k. drop k (contents w)) {x = 0} {y = n - length left} (omega arith),
      )

  -- The bytes behind the buffer have been asked for, and what is read is no positive `int`.
  closed-IsBody :
      (resize : ℕ → Bool) (n : ℕ) (left : List ℕ) (w w' : W)
      → Ends read contents
      → IsLength n
      → resize n ≡ true
      → length left < n
      → not_positive (read_fix_loop read (n - length left) (n - length left) (n - length left) w).0
        ≡ true
      → IsBody resize n left w (body_closed w')
  closed-IsBody resize n left w w' d l y more z =
      let k = n - length left in
      let all = length-append left (contents w) in
      (
        l,
        y,
        elim (Bool-cases (ltb (length (contents w)) k)) [
          | inl s ↦ inl (let few = ltb→lt (length (contents w)) k s in omega (arith, few, all))
          | inr s ↦
              let enough = ltb→le (length (contents w)) k s in
              let (code, long, split) =
                read_fix_loop-ReadAll read contents reader k k k w (omega arith) enough in
              inr (ap not_positive (sym code) ∙ z)
        ],
      )

  pub recv_body-IsBody :
      (resize : ℕ → Bool) (n : ℕ) (left : List ℕ) (w : W)
      → Ends read contents
      → IsBody resize n left w (recv_body resize read n left w)
  unfolding recv_body read_fix_size
  recv_body-IsBody resize n left w d = elim (Bool-cases (leb 1 n && ltb n (2 ^ 63))) [
    | inr x ↦ rw (x, recv_body) (no_length n x, refl)
    | inl y ↦ elim (Bool-cases (resize n)) [
      | inr t ↦ rw (y, t, recv_body) (a_length n y, t)
      | inl t ↦ elim (Bool-cases (ltb (length left) n)) [
        | inr m ↦
            rw (y, t, m, recv_body)
              (IsBody-left resize n left w (a_length n y) t (ltb→le (length left) n m))
        | inl m ↦
            let more = ltb→lt (length left) n m in
            let k = n - length left in
            let r = read_fix_loop read k k k w in
            elim (Bool-cases (not_positive r.0)) [
              | inl z ↦
                  rw (y, t, m, z, recv_body)
                    (closed-IsBody resize n left w r.2 d (a_length n y) t more z)
              | inr z ↦ elim (Bool-cases (ltb (length (contents w)) k)) [
                | inl s ↦ absurd (
                    let short =
                      read_fix_loop-short k k k w d (omega arith)
                        (ltb→lt (length (contents w)) k s) in
                    cc)
                | inr s ↦
                    let enough = ltb→le (length (contents w)) k s in
                    let (code, long, split) =
                      read_fix_loop-ReadAll read contents reader k k k w (omega arith) enough in
                    rw (y, t, m, z, recv_body)
                      (IsBody-rest resize n left r.1 w r.2 (a_length n y) t more long split)
              ]
            ]
      ]
    ]
  ]
    where
      no_length : (n : ℕ) → (leb 1 n && ltb n (2 ^ 63)) ≡ false → (n ≡ 0) ⊎ (2 ^ 63 ≤ n)
      no_length n h = ground arith

      a_length : (n : ℕ) → (leb 1 n && ltb n (2 ^ 63)) ≡ true → IsLength n
      a_length n h = ground arith
