-- ===== src/Net/Laws.antt =====
-- The masks of `__ipv4_isin` and `__ipv6_isin` as arithmetic on prefixes.
use Prim.Native.Nat.{bit_and}
use libac.Prelude.{
  ℕ, zero, suc, ◌-◌, ◌*◌, ◌/◌, ◌%◌, ◌^◌, ◌≤◌, ◌<◌, ◌≡◌, refl, sym, ap, ◌∙◌, ◌↔◌, Bool, true, false,
  List, [], ◌∷◌, ◌==◌, ltb, if◌then◌else◌, length, get_or, drop, arith,
}
use native.Mathlib.Nat.{pow-le-pow_right}
use libac.Bits.{pow-pos}
use libac.Str.{Str}
use libac.Net.{mask4, ipv4_isin, ipv4_isin_sa, mask6, all_match, ipv6_isin, ipv6_isin_sa}
use libac.Net.Floor.{bit_and-floor}

mask4-eq : (cidr : ℕ) → cidr ≤ 32 → mask4 cidr ≡ 2 ^ 32 - 2 ^ (32 - cidr)
unfolding mask4
mask4-eq cidr h = omega (
  arith,
  pow-pos (32 - cidr),
  pow-le-pow_right {n = 2} (omega arith) {i = 32 - cidr} {j = 32} (omega arith),
)

-- `ac_net_ipv4_isin` and `ac_net_ipv4_isin_sa`, for a prefix of at most 32 bits, hold exactly if the
-- network is the address with the bits behind the prefix cleared.
pub ipv4_isin-floor :
    (inet_pton : Str → ℕ) (network addr : Str) (cidr : ℕ)
    → cidr ≤ 32
    → inet_pton addr < 2 ^ 32
    → (ipv4_isin inet_pton network cidr addr
        ≡ (inet_pton addr / 2 ^ (32 - cidr) * 2 ^ (32 - cidr) == inet_pton network))
      × (ipv4_isin_sa inet_pton network cidr (inet_pton addr)
          ≡ ipv4_isin inet_pton network cidr addr)
unfolding ipv4_isin ipv4_isin_sa
ipv4_isin-floor inet_pton network addr cidr h small = (
  ap (λ x. x == inet_pton network)
      (ap (bit_and (inet_pton addr)) (mask4-eq cidr h)
        ∙ bit_and-floor 32 (32 - cidr) (inet_pton addr) (omega arith) small),
  refl,
)

-- How many bits of a byte are in what is left of the prefix.
abbrev kept : ℕ → ℕ
kept p = if ltb 8 p then 8 else p

-- The bytes with the bits behind the first `p` cleared.
unfoldable pub cleared : ℕ → List ℕ → List ℕ
cleared p [] = []
cleared p (a ∷ bytes) =
    a / 2 ^ (8 - (if ltb 8 p then 8 else p)) * 2 ^ (8 - (if ltb 8 p then 8 else p))
    ∷ cleared (p - (if ltb 8 p then 8 else p)) bytes

abbrev pub Bytes : List ℕ → Type 0
Bytes [] = Unit
Bytes (a ∷ bytes) = (a < 2 ^ 8) × Bytes bytes

byte_mask :
    (a s : ℕ)
    → s ≤ 8
    → a < 2 ^ 8
    → bit_and a (255 * 2 ^ (8 - s) % 2 ^ 8) ≡ a / 2 ^ (8 - s) * 2 ^ (8 - s)
byte_mask a s h small = ap (bit_and a) leading ∙ bit_and-floor 8 (8 - s) a (omega arith) small
  where
    leading : 255 * 2 ^ (8 - s) % 2 ^ 8 ≡ 2 ^ 8 - 2 ^ (8 - s)
    leading = omega (
      arith,
      pow-pos (8 - s),
      pow-le-pow_right {n = 2} (omega arith) {i = 8 - s} {j = 8} (omega arith),
    )

both : (x b : ℕ) (rest : Bool) → (if x == b then rest else false) ≡ true → (x ≡ b) × (rest ≡ true)
both x b rest e = (ground arith, ground arith)

of_both : (x b : ℕ) (rest : Bool) → x ≡ b → rest ≡ true → (if x == b then rest else false) ≡ true
of_both x b rest e h = ground arith

all_match-cleared :
    (n p : ℕ) (addr net : List ℕ)
    → length addr ≡ n
    → length net ≡ n
    → Bytes addr
    → (all_match addr (mask6 n p) net ≡ true) ↔ (cleared p addr ≡ net)
unfolding all_match mask6 cleared
all_match-cleared zero p [] [] la ln small = (λ e. refl, λ e. refl)
all_match-cleared zero p [] (b ∷ net) la ln small = absurd (omega arith)
all_match-cleared zero p (a ∷ addr) net la ln small = absurd (omega arith)
all_match-cleared (suc n) p [] net la ln small = absurd (omega arith)
all_match-cleared (suc n) p (a ∷ addr) [] la ln small = absurd (omega arith)
all_match-cleared (suc n) p (a ∷ addr) (b ∷ net) la ln (byte, small) =
    let (to, from) = all_match-cleared n (p - kept p) addr net (omega arith) (omega arith) small in
    let m = byte_mask a (kept p) (ground arith) byte in
    (
      λ e.
          let (x, rest) = both (bit_and a (255 * 2 ^ (8 - kept p) % 2 ^ 8)) b _ e in
          λ i. (sym m ∙ x) i ∷ to rest i,
      λ e.
          of_both (bit_and a (255 * 2 ^ (8 - kept p) % 2 ^ 8)) b _ (m ∙ ap (λ l. get_or l 0 0) e)
            (from (ap (drop 1) e)),
    )

-- `ac_net_ipv6_isin` and `ac_net_ipv6_isin_sa` hold exactly if the network is the address with the bits
-- behind the prefix cleared, for addresses of 16 bytes.
pub ipv6_isin-cleared :
    (inet_pton : Str → List ℕ) (network addr : Str) (prefixlen : ℕ)
    → length (inet_pton addr) ≡ 16
    → length (inet_pton network) ≡ 16
    → Bytes (inet_pton addr)
    → ((ipv6_isin inet_pton network prefixlen addr ≡ true)
        ↔ (cleared prefixlen (inet_pton addr) ≡ inet_pton network))
      × (ipv6_isin_sa inet_pton network prefixlen (inet_pton addr)
          ≡ ipv6_isin inet_pton network prefixlen addr)
unfolding ipv6_isin ipv6_isin_sa
ipv6_isin-cleared inet_pton network addr prefixlen la ln small =
    (all_match-cleared 16 prefixlen (inet_pton addr) (inet_pton network) la ln small, refl)
