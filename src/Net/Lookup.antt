-- ===== src/Net/Lookup.antt =====
-- src/ac_net.c: addresses as text, and the lookups of names.
--
-- `inet_pton(3)`, `inet_ntop(3)`, `getaddrinfo(3)` and `getnameinfo(3)` are arguments. `ai_next` is the
-- order of a list. The callback is a function of a world `W`.
pub mod Laws
use libac.Prelude.{
  ℕ, zero, suc, ◌+◌, ◌*◌, Bool, true, false, Option, none, some, List, [], ◌∷◌, ◌==◌, if◌then◌else◌,
}
use libac.Prelude.Int.{ℤ, pos, negsuc}
use libac.Str.{Str, has_byte}

-- `AF_INET` and `AF_INET6`
pub data Family : Type 0 where
  af_inet : Family
  af_inet6 : Family

-- A `struct sockaddr` as its `sa_family` tells: the two bytes of the port in memory, and the bytes of
-- the address; or another family.
pub data Sockaddr : Type 0 where
  sockaddr_in : Family → ℕ × ℕ → List ℕ → Sockaddr
  sockaddr_other : Sockaddr

-- `ntohs` of a number with these two bytes in memory
unfoldable pub ntohs : ℕ × ℕ → ℕ
ntohs (high, low) = high * 256 + low

-- `ac_net_port_from_sa`
unfoldable pub port_from_sa : Sockaddr → ℤ
unfolding ntohs
port_from_sa (sockaddr_in family port addr) = pos (ntohs port)
port_from_sa sockaddr_other = negsuc 0

-- `ac_net_inet_pton`: the result and what is stored, which are those of `inet_pton(3)`
unfoldable pub net_inet_pton {ℓ} : {R : Type ℓ} → (Family → Str → R) → Str → R
unfolding has_byte
net_inet_pton inet_pton src =
    if has_byte b':' src then inet_pton af_inet6 src else inet_pton af_inet src

-- `ac_net_inet_ntop`; `none` is NULL.
unfoldable pub net_inet_ntop : (Family → List ℕ → ℕ → Option Str) → Sockaddr → ℕ → Option Str
net_inet_ntop inet_ntop (sockaddr_in family port addr) size = inet_ntop family addr size
net_inet_ntop inet_ntop sockaddr_other size = none

-- `struct addrinfo`, as far as it is read
pub record Addrinfo : Type 0 where
  pub ai_flags : ℕ
  pub ai_addr : Sockaddr

-- `INET6_ADDRSTRLEN`
abbrev pub inet6_addrstrlen : ℕ
inet6_addrstrlen = 46

-- `ret == -1`
unfoldable pub is_minus_one : ℤ → Bool
is_minus_one (negsuc zero) = true
is_minus_one (negsuc (suc n)) = false
is_minus_one (pos n) = false

module _ {W : Type 0} (inet_ntop : Family → List ℕ → ℕ → Option Str)
    (lookup_cb : Addrinfo → Option Str → W → Bool × W) where
  -- The loop of `ac_net_ns_lookup_by_host`. The callback gets `none` for a buffer that was not filled.
  unfoldable pub call_each : List Addrinfo → W → W
  unfolding net_inet_ntop
  call_each [] w = w
  call_each (resp ∷ rest) w =
      let (again, w') =
        lookup_cb resp (net_inet_ntop inet_ntop (resp.ai_addr) inet6_addrstrlen) w in
      elim again [ true ↦ call_each rest w' | false ↦ w' ]

  -- `ac_net_ns_lookup_by_host`. `getaddrinfo` gives its result, and the list if it has set it; `none` is
  -- a read of a list that is not set.
  unfoldable pub ns_lookup_by_host : (Str → ℤ × Option (List Addrinfo)) → Str → W → Option (ℤ × W)
  unfolding call_each is_minus_one
  ns_lookup_by_host getaddrinfo node w =
      let (ret, list) = getaddrinfo node in
      if is_minus_one ret
      then some (ret, w)
      else elim list [ none ↦ none | some res ↦ some (pos 0, call_each res w) ]

  -- `ac_net_ns_lookup_by_ip`; the first entry of the list is read, and `none` is also a list without
  -- one. `getnameinfo` gives `none` where it fails.
  unfoldable pub ns_lookup_by_ip :
      (Str → ℤ × Option (List Addrinfo)) → (Sockaddr → Option Str) → Str → W → Option (ℤ × W)
  unfolding is_minus_one
  ns_lookup_by_ip getaddrinfo getnameinfo node w =
      let (ret, list) = getaddrinfo node in
      if is_minus_one ret then some (ret, w) else elim list [
        | none ↦ none
        | some [] ↦ none
        | some (res ∷ rest) ↦
            let (again, w') = lookup_cb res (getnameinfo res.ai_addr) w in some (pos 0, w')
      ]
