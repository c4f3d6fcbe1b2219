-- ===== src/Net/Tests.antt =====
-- Runs of the network tests: 10.1.2.3 in 10.1.0.0/16, and an IPv6 address in a /12; and of the lookups.
use libac.Prelude.{
  ℕ, ◌+◌, ◌*◌, ◌/◌, ◌-◌, ◌^◌, ◌≡◌, ◌↔◌, refl, Bool, true, false, Option, some, List, [], ◌∷◌, ◌==◌,
  map, if◌then◌else◌, arith,
}
use libac.Prelude.Int.{pos}
use libac.Str.{Str}
use libac.Net.{ipv4_isin, ipv4_isin_sa, ipv6_isin, ipv6_isin_sa}
use libac.Net.Lookup.{Family, af_inet, af_inet6, sockaddr_in, Addrinfo, ns_lookup_by_host}
use libac.Net.Lookup.Laws.{Call, noting, Asked, ns_lookup_by_host-Asked}
use libac.Net.Laws.{cleared, ipv4_isin-floor, ipv6_isin-cleared}

-- The parses of the two names, 1 for the network and 2 for the address.
abbrev parse4 : Str → ℕ
parse4 [] = 0
parse4 (c ∷ name) = if c == 1 then 167837696 else 167838211

abbrev parse6 : Str → List ℕ
parse6 [] = 0 ∷ 0 ∷ 0 ∷ 0 ∷ 0 ∷ 0 ∷ 0 ∷ 0 ∷ 0 ∷ 0 ∷ 0 ∷ 0 ∷ 0 ∷ 0 ∷ 0 ∷ 0 ∷ []
parse6 (c ∷ name) = 32 ∷ 16 ∷ 0 ∷ 0 ∷ 0 ∷ 0 ∷ 0 ∷ 0 ∷ 0 ∷ 0 ∷ 0 ∷ 0 ∷ 0 ∷ 0 ∷ 0 ∷ c ∷ []

ipv4_isin-floor_example :
    (ipv4_isin parse4 (1 ∷ []) 16 (2 ∷ [])
      ≡ (167838211 / 2 ^ (32 - 16) * 2 ^ (32 - 16) == 167837696))
    × (ipv4_isin_sa parse4 (1 ∷ []) 16 167838211 ≡ ipv4_isin parse4 (1 ∷ []) 16 (2 ∷ []))
ipv4_isin-floor_example = ipv4_isin-floor parse4 (1 ∷ []) (2 ∷ []) 16 (omega arith) (omega arith)

ipv6_isin-cleared_example :
    ((ipv6_isin parse6 (0 ∷ []) 12 (2 ∷ []) ≡ true)
      ↔ (cleared 12 (parse6 (2 ∷ [])) ≡ parse6 (0 ∷ [])))
    × (ipv6_isin_sa parse6 (0 ∷ []) 12 (parse6 (2 ∷ [])) ≡ ipv6_isin parse6 (0 ∷ []) 12 (2 ∷ []))
ipv6_isin-cleared_example = ipv6_isin-cleared parse6 (0 ∷ []) (2 ∷ []) 12 refl refl (
  omega arith,
  (
    omega arith,
    (
      omega arith,
      (
        omega arith,
        (
          omega arith,
          (
            omega arith,
            (
              omega arith,
              (
                omega arith,
                (
                  omega arith,
                  (
                    omega arith,
                    (
                      omega arith,
                      (omega arith, (omega arith, (omega arith, (omega arith, (omega arith, tt))))),
                    ),
                  ),
                ),
              ),
            ),
          ),
        ),
      ),
    ),
  ),
)

-- A text has a character behind the colon for each byte, and for IPv6 a colon in front.
abbrev shift : List ℕ → Str
shift addr = map (λ c. c + 59) addr

abbrev ntop : Family → List ℕ → ℕ → Option Str
ntop af_inet addr size = some (shift addr)
ntop af_inet6 addr size = some (b':' ∷ shift addr)

abbrev entry : ℕ → Addrinfo
entry n = record { ai_flags = n; ai_addr = sockaddr_in af_inet (0, 80) (n ∷ []) }

abbrev entries : List Addrinfo
entries = entry 1 ∷ entry 2 ∷ entry 3 ∷ []

-- The second entry is the last that is wanted.
abbrev again : Addrinfo → Option Str → Bool
again ai text = if ai.ai_flags == 2 then false else true

ns_lookup_by_host-Asked_example :
    (log : List Call) × (ns_lookup_by_host ntop
        (noting ntop again)
        (λ node. (pos 0, some entries))
        []
        []
      ≡ some (pos 0, log))
    × Asked ntop again entries [] log
ns_lookup_by_host-Asked_example =
    ns_lookup_by_host-Asked ntop again (λ node. (pos 0, some entries)) [] entries [] refl
