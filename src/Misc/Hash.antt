-- ===== src/Misc/Hash.antt =====
-- The hash functions.
use libac.Prelude.{ℕ, ◌*◌, ◌%◌, ◌^◌, ◌<◌, ◌≡◌, sym, ap, ◌∙◌, arith}
use libac.Misc.{hash_func_u32}

-- The inverse of `GOLDEN_MUL` modulo 2 ^ 32
abbrev golden_inverse : ℕ
golden_inverse = 3954393975

hash_func_u32-inverse : (k : ℕ) → k < 2 ^ 32 → hash_func_u32 k * golden_inverse % 2 ^ 32 ≡ k
unfolding hash_func_u32
hash_func_u32-inverse k small = omega arith

-- `ac_hash_func_u32` gives different keys different hashes.
pub hash_func_u32_injective :
    (a b : ℕ) → a < 2 ^ 32 → b < 2 ^ 32 → hash_func_u32 a ≡ hash_func_u32 b → a ≡ b
hash_func_u32_injective a b ha hb e =
    sym (hash_func_u32-inverse a ha)
    ∙ ap (λ h. h * golden_inverse % 2 ^ 32) e
    ∙ hash_func_u32-inverse b hb
