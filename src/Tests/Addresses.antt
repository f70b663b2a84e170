-- ===== src/Tests/Addresses.antt =====
-- The addresses of saturn/address.cc at concrete inputs.
use saturn.Base.{ℕ, ◌+◌, ◌*◌, ◌^◌, ◌<◌, ◌≡◌, refl, some, [], ◌∷◌, bytes, cut_at, arith}
use saturn.Http.Messages.{decimal, decimal_loop}
use saturn.Address.{
  IPv4Address, made, undefined, create_mask, count_bytes, network_address, broadcast_address6,
  change_address, change_from, node_service, or_host, or_plain, bracketed, after_bracket,
  plain_host,
}
use saturn.Address.Masks.{ones, count_bytes-ones, network_address-host}
use saturn.Address.Texts.{ipv4_text, ipv6_text, group_texts, groups}

-- 192.168.1.5
abbrev local_host : IPv4Address
local_host = record { address = 0xc0a80105; port = 80 }

ipv4_text_run : ipv4_text local_host ≡ bytes "192.168.1.5:80"
unfolding ipv4_text decimal decimal_loop
ipv4_text_run = refl

-- 2001:db8::1, with the digits below 10.
ipv6_text_run :
    ipv6_text
      (λ n. (48 + n) ∷ [])
      (record {
        s6_addr = 0 ∷ 2 ∷ 0 ∷ 3 ∷ 0 ∷ 0 ∷ 0 ∷ 0 ∷ 0 ∷ 0 ∷ 0 ∷ 0 ∷ 0 ∷ 0 ∷ 0 ∷ 1 ∷ [];
        port = 80;
      })
    ≡ bytes "[2:3::1]:80"
unfolding ipv6_text group_texts groups decimal decimal_loop
ipv6_text_run = refl

-- A prefix of 128 bits is a write behind the sixteen bytes.
broadcast_address6_run :
    broadcast_address6 128 (record {
      s6_addr = 0 ∷ 2 ∷ 0 ∷ 3 ∷ 0 ∷ 0 ∷ 0 ∷ 0 ∷ 0 ∷ 0 ∷ 0 ∷ 0 ∷ 0 ∷ 0 ∷ 0 ∷ 1 ∷ [];
      port = 80;
    })
    ≡ undefined
unfolding broadcast_address6 change_address change_from create_mask
broadcast_address6_run = refl

node_service_run : node_service (bytes "[::1]:80") ≡ (bytes "::1", some (bytes "80"))
unfolding node_service or_host or_plain bracketed after_bracket cut_at
node_service_run = refl

-- The address alone is looked up with a service.
node_service_colons_run : node_service (bytes "::1") ≡ (bytes "::1", some (bytes "::1"))
unfolding node_service or_host or_plain bracketed plain_host cut_at
node_service_colons_run = refl

count_bytes-ones_example : count_bytes 8 0xb0 ≡ ones 8 0xb0
count_bytes-ones_example = count_bytes-ones 8 0xb0 (omega arith)

network_address-host_example :
    (network : ℕ) × (host : ℕ) × (0xc0a80105 ≡ host + network * 2 ^ 8)
    × (host < 2 ^ 8)
    × (network_address 24 local_host ≡ made (record { address = host; port = 80 }))
network_address-host_example = network_address-host 24 local_host (omega arith) (omega arith)
