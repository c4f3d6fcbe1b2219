-- ===== src/Misc.antt =====
-- src/ac_misc.c: byte units, the Luhn check, the shuffle, the hash and comparison functions.
--
-- What `random_r` gives in a round is an argument. An element of the array to be shuffled is one
-- number, whatever its size.
pub mod Units
pub mod Luhn
pub mod Shuffle
pub mod Hash
pub mod Salt
mod Tests
use Prim.Native.Nat.{bit_xor}
use libac.Prelude.{
  ℕ, zero, suc, ◌+◌, ◌-◌, ◌*◌, ◌/◌, ◌%◌, ◌^◌, Bool, true, false, Option, none, some, List, [], ◌∷◌,
  ◌==◌, ltb, if◌then◌else◌, get_or, set,
}
use libac.Prelude.Int.{ℤ, pos, negsuc}
use libac.Str.{Str, same_str}

-- `ac_misc_ppb_factor_t`
pub data Factor : Type 0 where
  bytes kbytes mbytes gbytes tbytes pbytes ebytes : Factor

-- The macros `K`, `M`, `G`, `T`, `P`, `E`
abbrev pub k_of : Bool → ℕ
k_of si = if si then 1000 else 1024

abbrev pub m_of : Bool → ℕ
m_of si = if si then 1000 * 1000 else 1024 * 1024

abbrev pub g_of : Bool → ℕ
g_of si = if si then 1000 * 1000 * 1000 else 1024 * 1024 * 1024

abbrev pub t_of : Bool → ℕ
t_of si = if si then 1000 * 1000 * 1000 * 1000 else 1024 * 1024 * 1024 * 1024

abbrev pub p_of : Bool → ℕ
p_of si = if si then 1000 * 1000 * 1000 * 1000 * 1000 else 1024 * 1024 * 1024 * 1024 * 1024

abbrev pub e_of : Bool → ℕ
e_of si =
    if si then 1000 * 1000 * 1000 * 1000 * 1000 * 1000 else 1024 * 1024 * 1024 * 1024 * 1024 * 1024

-- `ppp_set_prefix`
unfoldable pub prefix_of : Bool → Factor → Str
prefix_of si bytes = 98 ∷ 121 ∷ 116 ∷ 101 ∷ 115 ∷ []
prefix_of si kbytes = if si then 75 ∷ 66 ∷ [] else 75 ∷ 105 ∷ 66 ∷ []
prefix_of si mbytes = if si then 77 ∷ 66 ∷ [] else 77 ∷ 105 ∷ 66 ∷ []
prefix_of si gbytes = if si then 71 ∷ 66 ∷ [] else 71 ∷ 105 ∷ 66 ∷ []
prefix_of si tbytes = if si then 84 ∷ 66 ∷ [] else 84 ∷ 105 ∷ 66 ∷ []
prefix_of si pbytes = if si then 80 ∷ 66 ∷ [] else 80 ∷ 105 ∷ 66 ∷ []
prefix_of si ebytes = if si then 69 ∷ 66 ∷ [] else 69 ∷ 105 ∷ 66 ∷ []

-- `ac_misc_ppb_t`, with the dividend and the divisor for the quotient in `v_float`. For `v_u16` the
-- divisor is 1.
pub record Ppb : Type 0 where
  pub factor : Factor
  pub prefix : Str
  pub value : ℕ
  pub divisor : ℕ

abbrev filled : Bool → Factor → ℕ → ℕ → Ppb
filled si f v d = record { factor = f; prefix = prefix_of si f; value = v; divisor = d }

-- `ac_misc_ppb`
unfoldable pub ppb : ℕ → Bool → Ppb
unfolding prefix_of
ppb b si =
    if ltb b (k_of si)
    then filled si bytes (b % 2 ^ 16) 1
    else if ltb b (m_of si)
    then filled si kbytes b (k_of si)
    else if ltb b (g_of si)
    then filled si mbytes b (m_of si)
    else if ltb b (t_of si)
    then filled si gbytes b (g_of si)
    else if ltb b (p_of si)
    then filled si tbytes b (t_of si)
    else if ltb b (e_of si)
    then filled si pbytes b (p_of si)
    else filled si ebytes b (e_of si)

-- The digit that is added for a digit of the number, in `ac_misc_luhn_check`
unfoldable pub luhn_digit : Bool → ℕ → ℕ
luhn_digit alt digit =
    if alt then (if ltb 9 (digit * 2) then digit * 2 % 10 + 1 else digit * 2) else digit

-- Its loop; `none` if it runs on.
unfoldable pub luhn_loop : ℕ → ℕ → Bool → ℕ → Option ℕ
unfolding luhn_digit
luhn_loop zero num alt sum = none
luhn_loop (suc f) num alt sum =
    let sum' = (sum + luhn_digit alt (num % 10)) % 2 ^ 32 in
    let rest = luhn_loop f (num / 10) (if alt then false else true) sum' in
    if num / 10 == 0 then some sum' else rest

-- `ac_misc_luhn_check`; a `u64` has at most 20 digits.
unfoldable pub luhn_check : ℕ → Option Bool
unfolding luhn_loop
luhn_check num =
    if ltb num 10
    then some false
    else elim (luhn_loop 20 num false 0) [ none ↦ none | some sum ↦ some (sum % 10 == 0) ]

-- One round of `shuffle_fisher_yates`: the elements at `r` and `n` change places.
unfoldable pub swap : List ℕ → ℕ → ℕ → List ℕ
swap base r n =
    let tmp = get_or base r 0 in let base' = set base r (get_or base n 0) in set base' n tmp

-- Its loop, `nmemb` rounds to go; `rnd` gives the random number of a round.
unfoldable pub shuffle_fisher_yates : (ℕ → ℕ) → List ℕ → ℕ → List ℕ
unfolding swap
shuffle_fisher_yates rnd base zero = base
shuffle_fisher_yates rnd base (suc n) = shuffle_fisher_yates rnd (swap base (rnd n % suc n) n) n

-- `ac_misc_shuffle`; `algo` 0 is `AC_MISC_SHUFFLE_FISHER_YATES`.
unfoldable pub shuffle : (ℕ → ℕ) → List ℕ → ℕ → ℕ → ℤ × List ℕ
unfolding shuffle_fisher_yates
shuffle rnd base nmemb algo =
    if algo == 0 then (pos 0, shuffle_fisher_yates rnd base nmemb) else (negsuc 0, base)

-- A `char`, which is signed, as a `u32`
unfoldable pub char_to_u32 : ℕ → ℕ
char_to_u32 c = if ltb c 128 then c else c + 2 ^ 32 - 256

-- A round of the loop of `ac_hash_func_str`
unfoldable pub mix : ℕ → ℕ → ℕ
unfolding char_to_u32
mix hash c =
    let h1 = (hash + char_to_u32 c) % 2 ^ 32 in
    let h2 = (h1 + h1 * 2 ^ 10 % 2 ^ 32) % 2 ^ 32 in bit_xor h2 (h2 / 2 ^ 6)

unfoldable pub mix_all : ℕ → Str → ℕ
unfolding mix
mix_all hash [] = hash
mix_all hash (c ∷ k) = mix_all (mix hash c) k

-- `ac_hash_func_str`
unfoldable pub hash_func_str : Str → ℕ
unfolding mix_all
hash_func_str k =
    let hash = mix_all 0 k in
    let h1 = (hash + hash * 2 ^ 3 % 2 ^ 32) % 2 ^ 32 in
    let h2 = bit_xor h1 (h1 / 2 ^ 11) in (h2 + h2 * 2 ^ 15 % 2 ^ 32) % 2 ^ 32

-- `GOLDEN_MUL`
abbrev pub golden_mul : ℕ
golden_mul = 1640531527

-- `ac_hash_func_u32`
unfoldable pub hash_func_u32 : ℕ → ℕ
hash_func_u32 k = k * golden_mul % 2 ^ 32

-- `ac_hash_func_ptr`, of an address below 2 ^ 64; the product is a 64-bit one.
unfoldable pub hash_func_ptr : ℕ → ℕ
hash_func_ptr key = key * golden_mul % 2 ^ 64 % 2 ^ 32

-- `ac_cmp_ptr` and `ac_cmp_u32`, as the test for 0
unfoldable pub cmp_ptr : ℕ → ℕ → Bool
cmp_ptr a b = a == b

unfoldable pub cmp_u32 : ℕ → ℕ → Bool
cmp_u32 a b = a == b

-- `ac_cmp_str`, as the test for 0
unfoldable pub cmp_str : Str → Str → Bool
unfolding same_str
cmp_str a b = same_str a b
