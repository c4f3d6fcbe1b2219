-- ===== src/Net.antt =====
-- src/ac_net.c: whether an address is in a network.
--
-- An IPv4 address is its 32-bit number in the host's byte order, since `htonl` and `&` commute; an
-- IPv6 address is the list of its 16 bytes. What `inet_pton(3)` stores is an argument.
pub mod Floor
pub mod Laws
pub mod Lookup
mod Tests
use Prim.Native.Nat.{bit_and}
use libac.Prelude.{
  ℕ, zero, suc, ◌+◌, ◌-◌, ◌*◌, ◌%◌, ◌^◌, Bool, true, false, List, [], ◌∷◌, ◌==◌, ltb, if◌then◌else◌,
}
use libac.Str.{Str}

-- `~0UL << (32 - cidr)`, as the 32 bits that `htonl` takes
unfoldable pub mask4 : ℕ → ℕ
mask4 cidr = (2 ^ 64 - 1) * 2 ^ (32 - cidr) % 2 ^ 64 % 2 ^ 32

-- `__ipv4_isin`, which `ac_net_ipv4_isin_sa` calls with the address in the `struct sockaddr`
unfoldable pub ipv4_isin_sa : (Str → ℕ) → Str → ℕ → ℕ → Bool
unfolding mask4
ipv4_isin_sa inet_pton network cidr addr = bit_and addr (mask4 cidr) == inet_pton network

-- `ac_net_ipv4_isin`
unfoldable pub ipv4_isin : (Str → ℕ) → Str → ℕ → Str → Bool
unfolding ipv4_isin_sa
ipv4_isin inet_pton network cidr addr = ipv4_isin_sa inet_pton network cidr (inet_pton addr)

-- The mask that the first loop of `__ipv6_isin` makes, `n` bytes from here on
unfoldable pub mask6 : ℕ → ℕ → List ℕ
mask6 zero prefixlen = []
mask6 (suc n) prefixlen =
    let s = if ltb 8 prefixlen then 8 else prefixlen in
    255 * 2 ^ (8 - s) % 2 ^ 8 ∷ mask6 n (prefixlen - s)

-- Its second loop
unfoldable pub all_match : List ℕ → List ℕ → List ℕ → Bool
all_match (a ∷ addr) (m ∷ mask) (b ∷ net) =
    let rest = all_match addr mask net in if bit_and a m == b then rest else false
all_match [] mask net = true
all_match (a ∷ addr) [] net = true
all_match (a ∷ addr) (m ∷ mask) [] = true

-- `__ipv6_isin`, which `ac_net_ipv6_isin_sa` calls with the address in the `struct sockaddr`
unfoldable pub ipv6_isin_sa : (Str → List ℕ) → Str → ℕ → List ℕ → Bool
unfolding mask6 all_match
ipv6_isin_sa inet_pton network prefixlen addr =
    all_match addr (mask6 16 prefixlen) (inet_pton network)

-- `ac_net_ipv6_isin`
unfoldable pub ipv6_isin : (Str → List ℕ) → Str → ℕ → Str → Bool
unfolding ipv6_isin_sa
ipv6_isin inet_pton network prefixlen addr =
    ipv6_isin_sa inet_pton network prefixlen (inet_pton addr)
