-- ===== src/Values/RoundTrip.antt =====
-- Writing a value at the end of the data of a buffer and reading it back.
use mathlib.Core.List.{append-nil, append_assoc}
use saturn.Base.{ℕ, ◌≡◌, sym, ap, subst, ◌∙◌, List, [], ◌++◌, arith, length-append}
use saturn.ByteArray.{ByteArray, Outcome, ok, ◌>>=◌, Endian, set_position}
use saturn.ByteArray.Invariant.{IsValid}
use saturn.ByteArray.Stream.{stored, unread, Appended, Advanced, rewind-unread}

-- `f` appends the bytes `enc`, which may depend on the byte order of the buffer.
abbrev pub Writes : (ByteArray → Outcome ByteArray) → (Endian → List ℕ) → Type 0
Writes f enc =
    (b : ByteArray)
    → IsValid b
    → b.position ≡ b.size
    → (c : ByteArray) × (f b ≡ ok c) × Appended b (enc b.endian) c

-- Over nodes of one byte, where every read ends at the end of a node, `g` takes the bytes `enc` off the stream and
-- returns `v`.
abbrev pub Reads :
    {A : Type 0} → (ByteArray → Outcome (A × ByteArray)) → (Endian → List ℕ) → A → Type 0
Reads g enc v =
    (b : ByteArray) (ys : List ℕ)
    → b.base_size ≡ 1
    → IsValid b
    → unread b ≡ enc b.endian ++ ys
    → (c : ByteArray) × (g b ≡ ok (v, c)) × Advanced b ys c

-- `f` on `b`, `setPosition` to the old end, and `g` all succeed, `g` returns `v`, and it leaves nothing.
abbrev pub ReadsBack :
    {A : Type 0}
    → ByteArray
    → (ByteArray → Outcome ByteArray)
    → (ByteArray → Outcome (A × ByteArray))
    → A
    → Type 0
ReadsBack b f g v =
    (c d e : ByteArray) × (f b ≡ ok c)
    × (set_position b.size c ≡ ok d)
    × (g d ≡ ok (v, e))
    × (unread e ≡ [])
    × IsValid e

pub round_trip :
    {A : Type 0} (f : ByteArray → Outcome ByteArray) (g : ByteArray → Outcome (A × ByteArray))
    (enc : Endian → List ℕ) (v : A) (b : ByteArray)
    → Writes f enc
    → Reads g enc v
    → b.base_size ≡ 1
    → IsValid b
    → b.position ≡ b.size
    → ReadsBack b f g v
round_trip f g enc v b fw gr one ok_b at_end =
    let (c, written, w) = fw b ok_b at_end in
    let (d, moved, _, m) = rewind-unread b c (enc b.endian) ok_b w in
    let same : d.endian ≡ b.endian = m.same_endian ∙ w.same_endian in
    let (e, found, r) =
      gr d [] (m.same_base ∙ w.same_base ∙ one) m.valid
        (m.left ∙ ap enc (sym same) ∙ sym (append-nil (enc d.endian))) in
    (c, d, e, written, moved, found, r.left, r.valid)

-- One write behind another.
pub Appended-trans :
    (b c d : ByteArray) (xs ys : List ℕ)
    → Appended b xs c
    → Appended c ys d
    → Appended b (xs ++ ys) d
Appended-trans b c d xs ys p q = record {
  valid = q.valid;
  same_base = q.same_base ∙ p.same_base;
  same_endian = q.same_endian ∙ p.same_endian;
  at_end = q.at_end;
  grown = omega (arith, p.grown, q.grown, length-append xs ys);
  bytes = q.bytes ∙ ap (λ t. t ++ ys) p.bytes ∙ append_assoc (stored b) xs ys;
}

pub Writes-then :
    (f g : ByteArray → Outcome ByteArray) (enc₁ enc₂ : Endian → List ℕ)
    → Writes f enc₁
    → Writes g enc₂
    → Writes (λ b. f b >>= g) (λ e. enc₁ e ++ enc₂ e)
Writes-then f g enc₁ enc₂ fw gw b v at_end =
    let (c, e₁, p) = fw b v at_end in
    let (d, e₂, q) = gw c p.valid p.at_end in
    (
      d,
      rw e₁ e₂,
      Appended-trans b c d (enc₁ b.endian) (enc₂ b.endian) p
          (subst (λ x. Appended c (enc₂ x) d) p.same_endian q),
    )

pub Reads-then :
    {A B : Type 0} (f : ByteArray → Outcome (A × ByteArray))
    (g : A × ByteArray → Outcome (B × ByteArray)) (enc₁ enc₂ : Endian → List ℕ) (u : A) (v : B)
    → Reads f enc₁ u
    → Reads (λ b. g (u, b)) enc₂ v
    → Reads (λ b. f b >>= g) (λ e. enc₁ e ++ enc₂ e) v
Reads-then f g enc₁ enc₂ u v fr gr b ys one ok_b e =
    let (c, e₁, p) =
      fr b (enc₂ b.endian ++ ys) one ok_b (e ∙ append_assoc (enc₁ b.endian) (enc₂ b.endian) ys) in
    let (d, e₂, q) =
      gr c ys (p.same_base ∙ one) p.valid (p.left ∙ ap (λ x. enc₂ x ++ ys) (sym p.same_endian)) in
    (
      d,
      rw e₁ e₂,
      record {
        valid = q.valid;
        same_base = q.same_base ∙ p.same_base;
        same_endian = q.same_endian ∙ p.same_endian;
        left = q.left;
      },
    )

-- A pure step behind a read.
pub Reads-map :
    {A B : Type 0} (f : ByteArray → Outcome (A × ByteArray)) (h : A → B) (enc : Endian → List ℕ)
    (u : A)
    → Reads f enc u
    → Reads (λ b. f b >>= λ r. ok (h r.0, r.1)) enc (h u)
Reads-map f h enc u fr b ys one v e = let (c, e₁, p) = fr b ys one v e in (c, rw e₁, p)
