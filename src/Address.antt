-- ===== src/Address.antt =====
-- saturn/address.cc: the addresses, their masks and texts, and how a host is looked up. `getaddrinfo`,
-- `getifaddrs` and `inet_pton` are the system's, and what they give is a parameter.
pub mod Masks
pub mod Hosts
pub mod Texts
use Prim.Native.Nat.{bit_and, bit_or, Ordering}
use saturn.Base.{
  ℕ, zero, suc, ◌+◌, ◌-◌, ◌*◌, ◌/◌, ◌%◌, ◌^◌, min, Bool, true, false, not, ◌&&◌, ◌||◌, Option, none,
  some, List, [], ◌∷◌, ◌++◌, map, bytes, length, take, drop, replicate, get_elem?, ltb, leb, ◌==◌,
  compare_bytes, if◌then◌else◌, cut_at,
}
use saturn.Http.Messages.{decimal}

-- `CreateMask` of a type of `width` bits that is narrower than an `int`, or of 32 bits, where the shift is of an
-- `int`: by 32 and more it is not defined, and neither is 1 off its result by 31.
unfoldable pub create_mask : ℕ → ℕ → Option ℕ
create_mask width bits =
    if leb bits width && ltb (width - bits) 31 then some (2 ^ (width - bits) - 1) else none

-- The loop of `CountBytes`, in `fuel` rounds.
unfoldable pub count_bytes_loop : ℕ → ℕ → ℕ
count_bytes_loop zero value = 0
count_bytes_loop (suc fuel) zero = 0
count_bytes_loop (suc fuel) (suc v) = suc (count_bytes_loop fuel (bit_and (suc v) v))

-- A round takes a bit away, so as many rounds as bits are enough.
unfoldable pub count_bytes : ℕ → ℕ → ℕ
count_bytes width value = count_bytes_loop width value

-- An `IPv4Address`: `sin_addr` and `sin_port` in the order of the host, `byteswapOnLittleEndian` of what is
-- stored, on whose bytes `|`, `&` and `~` do the same.
pub record IPv4Address : Type 0 where
  pub address : ℕ
  pub port : ℕ

-- An `IPv6Address`: the sixteen bytes of `s6_addr`.
pub record IPv6Address : Type 0 where
  pub s6_addr : List ℕ
  pub port : ℕ

-- What the functions that make an address return: none is `nullptr`, and `undefined` is an operation without a
-- defined result.
pub data Made {ℓ} (A : Type ℓ) : Type ℓ where
  made : (a : A) → Made A
  null undefined : Made A

unfoldable pub broadcast_address : ℕ → IPv4Address → Made IPv4Address
broadcast_address prefix_len a =
    if ltb 32 prefix_len then null else elim (create_mask 32 prefix_len) [
      | none ↦ undefined
      | some mask ↦ made (record { address = bit_or a.address mask; port = a.port })
    ]

-- `networdAddress`.
unfoldable pub network_address : ℕ → IPv4Address → Made IPv4Address
network_address prefix_len a =
    if ltb 32 prefix_len then null else elim (create_mask 32 prefix_len) [
      | none ↦ undefined
      | some mask ↦ made (record { address = bit_and a.address mask; port = a.port })
    ]

-- `~` of 32 bits.
unfoldable pub subnet_mask : ℕ → Made IPv4Address
subnet_mask prefix_len = elim (create_mask 32 prefix_len) [
  | none ↦ undefined
  | some mask ↦ made (record { address = 2 ^ 32 - 1 - mask; port = 0 })
]

-- The byte at `i` and those behind it, changed: `none` where there is none at `i`.
unfoldable pub change_from : ℕ → (ℕ → ℕ) → (ℕ → ℕ) → List ℕ → Option (List ℕ)
change_from i f g [] = none
change_from zero f g (b ∷ bs) = some (f b ∷ map g bs)
change_from (suc i) f g (b ∷ bs) = elim (change_from i f g bs) [
  | none ↦ none
  | some r ↦ some (b ∷ r)
]

-- What the functions of `IPv6Address` do: a byte is changed with the mask of the bits of the prefix in it, and
-- those behind it are set. A write behind the sixteen bytes has no defined result.
unfoldable pub change_address : ℕ → (ℕ → ℕ → ℕ) → ℕ → IPv6Address → Made IPv6Address
change_address prefix_len f fill a = elim (create_mask 8 (prefix_len % 8)) [
  | none ↦ undefined
  | some mask ↦ elim (change_from (prefix_len / 8) (λ b. f b mask) (λ b. fill) a.s6_addr) [
    | none ↦ undefined
    | some bs ↦ made (record { s6_addr = bs; port = a.port })
  ]
]

unfoldable pub broadcast_address6 : ℕ → IPv6Address → Made IPv6Address
broadcast_address6 prefix_len a = change_address prefix_len bit_or 0xff a

unfoldable pub network_address6 : ℕ → IPv6Address → Made IPv6Address
network_address6 prefix_len a = change_address prefix_len bit_and 0x00 a

-- The first `n` bytes are ones, then comes `~` of the mask, and the others are 0.
unfoldable pub subnet_mask6 : ℕ → Made IPv6Address
subnet_mask6 prefix_len = elim (create_mask 8 (prefix_len % 8)) [
  | none ↦ undefined
  | some mask ↦
      if ltb (prefix_len / 8) 16
      then made (record {
        s6_addr =
            replicate (prefix_len / 8) 0xff ++ (255 - mask) ∷ replicate (15 - prefix_len / 8) 0;
        port = 0;
      })
      else undefined
]

-- The result of `memcmp`, and the lengths where it is 0.
abbrev pub decided : Ordering → ℕ → ℕ → Bool
decided Ordering.lt m n = true
decided Ordering.eq m n = ltb m n
decided Ordering.gt m n = false

-- `operator<`, on the bytes of the two addresses.
unfoldable pub less_address : List ℕ → List ℕ → Bool
less_address a b =
    let n = min (length a) (length b) in
    decided (compare_bytes (take n a) (take n b)) (length a) (length b)

-- `operator==`.
unfoldable pub equal_address : List ℕ → List ℕ → Bool
equal_address a b =
    (length a == length b)
    && elim (compare_bytes a (take (length a) b)) [ Ordering.eq ↦ true | _ ↦ false ]

unfoldable pub after_bracket : List ℕ → Option (List ℕ)
after_bracket [] = none
after_bracket (c ∷ cs) = if c == b':' then some cs else none

-- A node in brackets, and the service behind them; an empty node is none.
unfoldable pub bracketed : List ℕ → List ℕ × Option (List ℕ)
bracketed [] = ([], none)
bracketed (c ∷ cs) =
    if c == b'['
    then elim (cut_at b']' cs) [
      | none ↦ ([], none)
      | some (node, behind) ↦ (node, after_bracket behind)
    ]
    else ([], none)

-- The node and the service of a host in which no node stands in brackets: with more than one ':' the service
-- stays where the first of them is.
unfoldable pub plain_host : List ℕ → List ℕ × Option (List ℕ)
plain_host host = elim (cut_at b':' host) [
  | none ↦ ([], none)
  | some (before, behind) ↦ elim (cut_at b':' behind) [
    | none ↦ (before, some behind)
    | some r ↦ ([], some (b':' ∷ behind))
  ]
]

-- A node in brackets goes first.
unfoldable pub or_plain : List ℕ → List ℕ × Option (List ℕ) → List ℕ × Option (List ℕ)
or_plain host ([], service) = plain_host host
or_plain host (c ∷ cs, service) = (c ∷ cs, service)

-- Without a node the host is the node.
unfoldable pub or_host : List ℕ → List ℕ × Option (List ℕ) → List ℕ × Option (List ℕ)
or_host host ([], service) = (host, service)
or_host host (c ∷ cs, service) = (c ∷ cs, service)

-- What `Lookup` asks `getaddrinfo` for, on a host without a 0: the node and the service.
unfoldable pub node_service : List ℕ → List ℕ × Option (List ℕ)
node_service host = or_host host (or_plain host (bracketed host))

-- `LookupAnyIPAddress`: the first result that is an IP address.
unfoldable pub first_some {ℓ} : {A : Type ℓ} → List (Option A) → Option A
first_some [] = none
first_some (some a ∷ rest) = some a
first_some (none ∷ rest) = first_some rest
