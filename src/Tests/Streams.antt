-- ===== src/Tests/Streams.antt =====
-- The loops of saturn/stream.cc over a stream that passes two bytes at most.
use saturn.Base.{
  ℕ, zero, suc, ◌≤◌, ◌<◌, ◌≡◌, refl, List, [], ◌∷◌, ◌++◌, length, take, drop, take-append-drop, min,
  arith, sym,
}
use saturn.Stream.{Received, received, Sent, sent, read_fix_loop, read_fix_size}
use saturn.Stream.Whole.{IsReader, IsWriter}

-- The state of either stream is a list of bytes.
abbrev pub read_two : ℕ → List ℕ → Received × List ℕ
read_two n w = (received (take (min n 2) w), drop (min n 2) w)

abbrev pub write_two : List ℕ → List ℕ → Sent × List ℕ
write_two [] w = (sent 0, w)
write_two (a ∷ []) w = (sent 1, w ++ a ∷ [])
write_two (a ∷ b ∷ cs) w = (sent 2, w ++ a ∷ b ∷ [])

length-take_pos :
    (n : ℕ) (w : List ℕ) → 0 < n → 0 < length w → (0 < length (take n w)) × (length (take n w) ≤ n)
length-take_pos zero w p q = absurd (omega (arith, p))
length-take_pos (suc n) [] p q = absurd (omega (arith, q))
length-take_pos (suc n) (x ∷ w) p q = (omega arith, omega (arith, length-take_up n w))
  where
    length-take_up : (n : ℕ) (w : List ℕ) → length (take n w) ≤ n
    length-take_up zero w = omega arith
    length-take_up (suc n) [] = omega arith
    length-take_up (suc n) (x ∷ w) = omega (arith, length-take_up n w)

pub read_two-IsReader : IsReader read_two (λ w. w)
read_two-IsReader = record {
  gives = λ n w p q.
      let (some_byte, few) = length-take_pos (min n 2) w (ground (arith, p)) q in
      let least : min n 2 ≤ n = ground arith in
      (
        take (min n 2) w,
        refl,
        some_byte,
        omega (arith, few, least),
        sym (take-append-drop (min n 2) w),
      );
}

takes_two :
    (buffer w : List ℕ)
    → 0 < length buffer
    → (n : ℕ) × ((write_two buffer w).0 ≡ sent n)
      × (0 < n)
      × (n ≤ length buffer)
      × ((write_two buffer w).1 ≡ w ++ take n buffer)
takes_two [] w p = absurd (omega (arith, p))
takes_two (a ∷ []) w p = (1, refl, omega arith, omega arith, refl)
takes_two (a ∷ b ∷ cs) w p = (2, refl, omega arith, omega arith, refl)

pub write_two-IsWriter : IsWriter write_two (λ w. w)
write_two-IsWriter = record { takes = takes_two }

read_fix_size_run : read_fix_size read_two 3 (1 ∷ 2 ∷ 3 ∷ 4 ∷ []) ≡ (3, 1 ∷ 2 ∷ 3 ∷ [], 4 ∷ [])
unfolding read_fix_size read_fix_loop
read_fix_size_run = refl
