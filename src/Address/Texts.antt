-- ===== src/Address/Texts.antt =====
-- The texts of the addresses of saturn/address.cc, and `UnixAddress`.
use Prim.Native.Nat.{bit_and}
use saturn.Base.{
  ℕ, suc, ◌+◌, ◌-◌, ◌*◌, ◌/◌, ◌^◌, ◌≤◌, ◌≡◌, refl, ap, ◌∙◌, Bool, true, false, not, ◌&&◌, ◌||◌,
  Option, none, some, List, [], ◌∷◌, ◌++◌, bytes, length, take, replicate, ltb, ◌==◌, c_str, Lacks,
  le→ltb, take_all, length-append, if◌then◌else◌, arith,
}
use mathlib.Core.List.{append_assoc}
use saturn.Http.Messages.{decimal}
use saturn.Address.{IPv4Address, IPv6Address}

-- `IPv4Address::insert`.
unfoldable pub ipv4_text : IPv4Address → List ℕ
ipv4_text a =
    decimal (bit_and (a.address / 2 ^ 24) 0xff)
    ++ (bytes "."
        ++ (decimal (bit_and (a.address / 2 ^ 16) 0xff)
            ++ (bytes "."
                ++ (decimal (bit_and (a.address / 2 ^ 8) 0xff)
                    ++ (bytes "."
                        ++ (decimal (bit_and a.address 0xff) ++ (bytes ":" ++ decimal a.port)))))))

-- The 16-bit groups of `s6_addr` in the order of the host.
unfoldable pub groups : List ℕ → List ℕ
groups [] = []
groups (h ∷ []) = []
groups (h ∷ l ∷ bs) = (h * 256 + l) ∷ groups bs

-- The loop of `IPv6Address::insert` from the group `i` on, with whether the group before is 0; `hex` is how the
-- stream prints a number with `std::hex`. It gives whether the zeros have been written too.
unfoldable pub group_texts : (ℕ → List ℕ) → ℕ → Bool → Bool → List ℕ → List ℕ × Bool
group_texts hex i before_zero used_zeros [] = ([], used_zeros)
group_texts hex i before_zero used_zeros (g ∷ gs) =
    let skips = (g == 0) && not used_zeros in
    let opens = not (i == 0) && (before_zero && not used_zeros) in
    let skipped = group_texts hex (suc i) (g == 0) used_zeros gs in
    let rest = group_texts hex (suc i) (g == 0) (used_zeros || opens) gs in
    if skips then skipped else (
      (if opens then bytes ":" else [])
          ++ ((if i == 0 then [] else bytes ":") ++ (hex g ++ rest.0)),
      rest.1,
    )

unfoldable pub ipv6_text : (ℕ → List ℕ) → IPv6Address → List ℕ
ipv6_text hex a =
    let (texts, used_zeros) = group_texts hex 0 false false (groups a.s6_addr) in
    bytes "["
    ++ (texts
        ++ ((if not used_zeros && ends_zero (groups a.s6_addr) then bytes "::" else [])
            ++ (bytes "]:" ++ decimal a.port)))
  where
    ends_zero : List ℕ → Bool
    ends_zero [] = false
    ends_zero (g ∷ []) = g == 0
    ends_zero (g ∷ h ∷ gs) = ends_zero (h ∷ gs)

-- A `UnixAddress`: the 108 bytes of `sun_path`, and `m_length` less the two bytes before them.
pub record UnixAddress : Type 0 where
  pub sun_path : List ℕ
  pub path_length : ℕ

unfoldable pub new_unix_address : UnixAddress
new_unix_address = record { sun_path = replicate 108 0; path_length = 107 }

-- What `memcpy` copies: `path_length` bytes of the path and of the 0 behind it.
unfoldable pub unix_path : List ℕ → ℕ → UnixAddress
unix_path path n = record {
  sun_path = take n (path ++ 0 ∷ []) ++ replicate (108 - n) 0;
  path_length = n;
}

abbrev pub starts_zero : List ℕ → Bool
starts_zero [] = false
starts_zero (c ∷ cs) = c == 0

-- The constructor on a path, which throws where the path is too long.
unfoldable pub unix_address : List ℕ → Option UnixAddress
unix_address path =
    let n = suc (length path) - (if starts_zero path then 1 else 0) in
    if ltb 108 n then none else some (unix_path path n)

-- `getPath` and `insert`, where `sun_path` ends with a 0 inside its bytes.
unfoldable pub get_path : UnixAddress → List ℕ
get_path a = elim a.sun_path [
  | [] ↦ []
  | c ∷ cs ↦
      if ltb 0 a.path_length && (c == 0)
      then bytes "\\0" ++ take (a.path_length - 1) cs
      else c_str (c ∷ cs)
]

c_str-append : (s rest : List ℕ) → Lacks 0 s → c_str (s ++ 0 ∷ rest) ≡ s
c_str-append [] rest h = refl
c_str-append (c ∷ s) rest h = rw h.0 (ap (λ t. c ∷ t) (c_str-append s rest h.1))

unix_address-some :
    (path : List ℕ)
    → suc (length path) - (if starts_zero path then 1 else 0) ≤ 108
    → unix_address path
      ≡ some (unix_path path (suc (length path) - (if starts_zero path then 1 else 0)))
unfolding unix_address
unix_address-some path h =
    rw (le→ltb 108 (suc (length path) - (if starts_zero path then 1 else 0)) h, unix_address) refl

-- A path that is not empty, holds no 0 and has at most 107 bytes is what `getPath` gives back.
pub get_path-unix_address :
    (c : ℕ) (cs : List ℕ)
    → Lacks 0 (c ∷ cs)
    → length (c ∷ cs) ≤ 107
    → (a : UnixAddress) × (unix_address (c ∷ cs) ≡ some a) × (get_path a ≡ c ∷ cs)
unfolding get_path unix_path
get_path-unix_address c cs l h =
    let n : suc (length (c ∷ cs)) - (if c == 0 then 1 else 0) ≡ suc (length (c ∷ cs)) =
      rw l.0 (omega arith) in
    let all : take (suc (length cs)) (cs ++ 0 ∷ []) ≡ cs ++ 0 ∷ [] =
      take_all (suc (length cs)) (cs ++ 0 ∷ [])
        (let two = length-append cs (0 ∷ []) in omega arith) in
    let some_path : ltb 0 (suc (suc (length cs))) ≡ true = ground arith in
    let e = unix_address-some (c ∷ cs) (rw n (omega arith)) in
    (
      unix_path (c ∷ cs) (suc (length (c ∷ cs))),
      e ∙ ap (λ k. some (unix_path (c ∷ cs) k)) n,
      rw (some_path, l.0)
          (ap (λ t. c ∷ t)
            (ap (λ t. c_str (t ++ replicate (108 - suc (suc (length cs))) 0)) all
              ∙ ap c_str (append_assoc cs (0 ∷ []) (replicate (108 - suc (suc (length cs))) 0))
              ∙ c_str-append cs (replicate (108 - suc (suc (length cs))) 0) l.1)),
    )
