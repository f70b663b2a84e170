-- ===== src/Address/Hosts.antt =====
-- How `Lookup` of saturn/address.cc splits a host, and the order of the addresses.
use Prim.Native.Nat.{compare, Ordering}
use saturn.Base.{
  ℕ, zero, suc, ◌≡◌, inl, inr, refl, ◌∙◌, Bool, true, false, none, some, List, [], ◌∷◌, ◌++◌,
  length, take, min, ◌==◌, compare_bytes, cut_at-append, cut_at-Lacks, Lacks, arith,
}
use saturn.Http.FieldLaws.{Ordering-cases}
use saturn.Address.{
  after_bracket, bracketed, plain_host, or_plain, or_host, node_service, decided, less_address,
}

bracketed-other : (c : ℕ) (cs : List ℕ) → (c == b'[') ≡ false → bracketed (c ∷ cs) ≡ ([], none)
unfolding bracketed
bracketed-other c cs h = rw h refl

-- A host that is a node and a service with a ':' between them, the only one, is split there; the node is not
-- empty and begins with no '['.
pub node_service-append :
    (c : ℕ) (cs service : List ℕ)
    → (c == b'[') ≡ false
    → Lacks b':' (c ∷ cs)
    → Lacks b':' service
    → node_service ((c ∷ cs) ++ b':' ∷ service) ≡ (c ∷ cs, some service)
unfolding node_service or_host or_plain plain_host
node_service-append c cs service h l l' =
    rw (bracketed-other c (cs ++ b':' ∷ service) h, node_service, or_plain)
      (rw (cut_at-append b':' (c ∷ cs) service l, plain_host)
        (rw (cut_at-Lacks b':' service l') refl))

-- A host that is a node in brackets, a ':' and a service is split there, whatever the service holds; the node
-- is not empty and holds no ']'.
pub node_service-bracketed :
    (c : ℕ) (cs service : List ℕ)
    → Lacks b']' (c ∷ cs)
    → node_service (b'[' ∷ ((c ∷ cs) ++ b']' ∷ b':' ∷ service)) ≡ (c ∷ cs, some service)
unfolding node_service or_host or_plain bracketed after_bracket
node_service-bracketed c cs service l =
    rw (cut_at-append b']' (c ∷ cs) (b':' ∷ service) l, bracketed) refl

-- A host with two ':' or more that begins with no '[' is looked up whole, but with a service, which begins with
-- the first ':'.
pub node_service-colons :
    (c : ℕ) (cs middle rest : List ℕ)
    → (c == b'[') ≡ false
    → Lacks b':' (c ∷ cs)
    → Lacks b':' middle
    → let host = (c ∷ cs) ++ b':' ∷ (middle ++ b':' ∷ rest) in
      node_service host ≡ (host, some (b':' ∷ (middle ++ b':' ∷ rest)))
unfolding node_service or_host or_plain plain_host
node_service-colons c cs middle rest h l l' =
    rw (bracketed-other c (cs ++ b':' ∷ (middle ++ b':' ∷ rest)) h, node_service, or_plain)
      (rw (cut_at-append b':' (c ∷ cs) (middle ++ b':' ∷ rest) l, plain_host)
        (rw (cut_at-append b':' middle rest l') refl))

abbrev pub is_lt : Ordering → Bool
is_lt Ordering.lt = true
is_lt Ordering.eq = false
is_lt Ordering.gt = false

decided-suc : (o : Ordering) (m n : ℕ) → decided o (suc m) (suc n) ≡ decided o m n
decided-suc Ordering.lt m n = refl
decided-suc Ordering.gt m n = refl
decided-suc Ordering.eq m n = ground arith

decided-compare_bytes :
    (n : ℕ) (a b : List ℕ)
    → n ≡ min (length a) (length b)
    → decided (compare_bytes (take n a) (take n b)) (length a) (length b)
      ≡ is_lt (compare_bytes a b)
unfolding compare_bytes
decided-compare_bytes zero [] [] e = refl
decided-compare_bytes zero [] (y ∷ b) e = ground arith
decided-compare_bytes zero (x ∷ a) [] e = ground arith
decided-compare_bytes zero (x ∷ a) (y ∷ b) e = absurd (omega arith)
decided-compare_bytes (suc n) [] b e = absurd (omega arith)
decided-compare_bytes (suc n) (x ∷ a) [] e = absurd (omega arith)
decided-compare_bytes (suc n) (x ∷ a) (y ∷ b) e = elim (Ordering-cases (compare x y)) [
  | inl o ↦ rw (o, compare_bytes) refl
  | inr (inl o) ↦
      rw (o, compare_bytes)
        (decided-suc (compare_bytes (take n a) (take n b)) (length a) (length b)
          ∙ decided-compare_bytes n a b (omega arith))
  | inr (inr o) ↦ rw (o, compare_bytes) refl
]

-- `operator<` is the lexicographic order of the bytes of the addresses.
pub less_address-compare_bytes : (a b : List ℕ) → less_address a b ≡ is_lt (compare_bytes a b)
unfolding less_address
less_address-compare_bytes a b = decided-compare_bytes (min (length a) (length b)) a b refl
