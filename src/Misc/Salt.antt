-- ===== src/Misc/Salt.antt =====
-- src/ac_misc.c: `ac_misc_passcrypt`, and the salt that it makes.
--
-- `crypt_r(3)` is an argument, and so is what `random_r` gives in a round. What `crypt_r` keeps in the
-- caller's buffer is not in the model.
pub mod Laws
use libac.Prelude.{
  ℕ, zero, suc, ◌+◌, ◌%◌, Option, none, some, List, [], ◌∷◌, ◌==◌, ltb, if◌then◌else◌, length,
  get_or, set, replicate,
}
use libac.Prelude.Text.{codes}
use libac.Str.{Str}

-- `ac_hash_algo_t`
pub data HashAlgo : Type 0 where
  md5 sha1 sha256 sha512 : HashAlgo

-- `salt_chars`
abbrev pub salt_chars : Str
salt_chars = codes "./0123456789ABCDEFGHIJKLMNOPQRSTUVWXYZabcdefghijklmnopqrstuvwxyz"

-- A write of one `char`, `none` outside the array
unfoldable pub put : List ℕ → ℕ → ℕ → Option (List ℕ)
put salt i c = if ltb i (length salt) then some (set salt i c) else none

-- `strcpy(salt + i, s)`, with the final NUL
unfoldable pub strcpy : List ℕ → ℕ → Str → Option (List ℕ)
unfolding put
strcpy salt i [] = put salt i 0
strcpy salt i (c ∷ s) = elim (put salt i c) [ none ↦ none | some salt' ↦ strcpy salt' (suc i) s ]

-- The string at the start of the array, `none` if it has no NUL
unfoldable pub c_string : List ℕ → Option Str
c_string [] = none
c_string (c ∷ cs) =
    let rest = c_string cs in
    if c == 0 then some [] else elim rest [ none ↦ none | some s ↦ some (c ∷ s) ]

-- The prefix that the `switch` copies; `none` is its `default`.
unfoldable pub salt_prefix : HashAlgo → Option Str
salt_prefix md5 = some (codes "$1$")
salt_prefix sha1 = none
salt_prefix sha256 = some (codes "$5$")
salt_prefix sha512 = some (codes "$6$")

-- The loop, `n` rounds to go, and the write behind it; `rnd i` is what `random_r` gives in round `i`.
unfoldable pub fill_salt : (ℕ → ℕ) → ℕ → ℕ → List ℕ → Option (List ℕ)
unfolding put
fill_salt rnd zero i salt = put salt i b'$'
fill_salt rnd (suc n) i salt = elim (put salt i (get_or salt_chars (rnd i % 64) 0)) [
  | none ↦ none
  | some salt' ↦ fill_salt rnd n (suc i) salt'
]

-- `char salt[21]` after the loop; `none` is a write outside it.
unfoldable pub make_salt : (ℕ → ℕ) → Str → Option (List ℕ)
unfolding fill_salt strcpy
make_salt rnd prefix = elim (strcpy (replicate 21 0) 0 prefix) [
  | none ↦ none
  | some salt ↦ fill_salt rnd 16 3 salt
]

-- `ac_misc_passcrypt`. The outer `none` is an access outside `salt`, the inner one is NULL.
unfoldable pub passcrypt : (Str → Str → Option Str) → (ℕ → ℕ) → Str → HashAlgo → Option (Option Str)
unfolding make_salt c_string salt_prefix
passcrypt crypt_r rnd pass hash_type = elim (salt_prefix hash_type) [
  | none ↦ some none
  | some prefix ↦ elim (make_salt rnd prefix) [
    | none ↦ none
    | some salt ↦ elim (c_string salt) [ none ↦ none | some s ↦ some (crypt_r pass s) ]
  ]
]
