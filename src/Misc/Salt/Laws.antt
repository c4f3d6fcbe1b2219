-- ===== src/Misc/Salt/Laws.antt =====
-- The salt of `ac_misc_passcrypt`: its length, its letters, and the writes to the array.
use mathlib.Core.List.{append_assoc}
use libac.Prelude.{
  ℕ, zero, suc, ◌%◌, ◌<◌, ◌≡◌, refl, sym, ap, ◌∙◌, Bool, true, false, ◌&&◌, ◌||◌, Option, none,
  some, List, [], ◌∷◌, ◌++◌, ◌==◌, ltb, leb, length, length-append, set, get_or, replicate, if_true,
  arith,
}
use libac.Prelude.Text.{codes}
use libac.Str.{Str, has_byte}
use libac.Misc.Salt.{
  HashAlgo, md5, sha1, sha256, sha512, salt_chars, put, strcpy, c_string, salt_prefix, fill_salt,
  make_salt, passcrypt,
}

-- The letters that `crypt(5)` allows in a salt
abbrev pub salt_letter : ℕ → Bool
salt_letter c =
    (leb b'.' c && leb c b'9') || (leb b'A' c && leb c b'Z') || (leb b'a' c && leb c b'z')

abbrev pub all_letters : Str → Bool
all_letters [] = true
all_letters (c ∷ s) = salt_letter c && all_letters s

all_letters-get_or :
    (s : Str) (i : ℕ) → all_letters s ≡ true → i < length s → salt_letter (get_or s i 0) ≡ true
all_letters-get_or [] i all h = absurd (omega arith)
all_letters-get_or (c ∷ s) zero all h = ground arith
all_letters-get_or (c ∷ s) (suc i) all h = all_letters-get_or s i (ground arith) (omega arith)

salt_char_letter : (r : ℕ) → salt_letter (get_or salt_chars (r % 64) 0) ≡ true
salt_char_letter r = all_letters-get_or salt_chars (r % 64) refl (omega arith)

-- The letters that `n` rounds from `i` on choose
abbrev chosen : (ℕ → ℕ) → ℕ → ℕ → Str
chosen rnd zero i = []
chosen rnd (suc n) i = get_or salt_chars (rnd i % 64) 0 ∷ chosen rnd n (suc i)

length-chosen : (rnd : ℕ → ℕ) (n i : ℕ) → length (chosen rnd n i) ≡ n
length-chosen rnd zero i = refl
length-chosen rnd (suc n) i = ap suc (length-chosen rnd n (suc i))

chosen_letters : (rnd : ℕ → ℕ) (n i : ℕ) → all_letters (chosen rnd n i) ≡ true
chosen_letters rnd zero i = refl
chosen_letters rnd (suc n) i = rw (salt_char_letter (rnd i), chosen_letters rnd n (suc i)) refl

set_middle : (xs ys : List ℕ) (z c : ℕ) → set (xs ++ z ∷ ys) (length xs) c ≡ xs ++ c ∷ ys
set_middle [] ys z c = refl
set_middle (x ∷ xs) ys z c = ap (λ l. x ∷ l) (set_middle xs ys z c)

put_middle :
    (xs ys : List ℕ) (i z c : ℕ) → i ≡ length xs → put (xs ++ z ∷ ys) i c ≡ some (xs ++ c ∷ ys)
unfolding put
put_middle xs ys i z c at =
    let inside : ltb i (length (xs ++ z ∷ ys)) ≡ true = ground (arith, length-append xs (z ∷ ys)) in
    if_true _ _ inside ∙ ap (λ k. some (set (xs ++ z ∷ ys) k c)) at ∙ ap some (set_middle xs ys z c)

fill_salt_all :
    (rnd : ℕ → ℕ) (n i : ℕ) (xs ys : List ℕ)
    → i ≡ length xs
    → fill_salt rnd n i (xs ++ (replicate (suc n) 0 ++ ys))
      ≡ some (xs ++ (chosen rnd n i ++ b'$' ∷ ys))
unfolding fill_salt
fill_salt_all rnd zero i xs ys at = put_middle xs ys i 0 b'$' at
fill_salt_all rnd (suc n) i xs ys at =
    let c : ℕ = get_or salt_chars (rnd i % 64) 0 in
    let next : suc i ≡ length (xs ++ c ∷ []) = omega (arith, length-append xs (c ∷ [])) in
    let here = put_middle xs (replicate (suc n) 0 ++ ys) i 0 c at in
    ap
      (λ o. elim o as (λ u. Option (List ℕ)) [
        | none ↦ none
        | some salt' ↦ fill_salt rnd n (suc i) salt'
      ])
      here
    ∙ ap (fill_salt rnd n (suc i)) (sym (append_assoc xs (c ∷ []) (replicate (suc n) 0 ++ ys)))
    ∙ fill_salt_all rnd n (suc i) (xs ++ c ∷ []) ys next
    ∙ ap some (append_assoc xs (c ∷ []) (chosen rnd n (suc i) ++ b'$' ∷ ys))

c_string_to_nul : (xs ys : List ℕ) → has_byte 0 xs ≡ false → c_string (xs ++ 0 ∷ ys) ≡ some xs
unfolding c_string has_byte
c_string_to_nul [] ys plain = refl
c_string_to_nul (x ∷ xs) ys plain =
    let other : (x == 0) ≡ false = ground arith in
    let rest = c_string_to_nul xs ys (ground arith) in rw (other, rest) refl

letters_no_nul : (s : Str) → all_letters s ≡ true → has_byte 0 (s ++ b'$' ∷ []) ≡ false
unfolding has_byte
letters_no_nul [] all = refl
letters_no_nul (c ∷ s) all =
    let rest = letters_no_nul s (ground arith) in
    let other : (c == 0) ≡ false = ground arith in rw (other) rest

make_salt_all :
    (rnd : ℕ → ℕ) (a b c : ℕ)
    → make_salt rnd (a ∷ b ∷ c ∷ []) ≡ some ((a ∷ b ∷ c ∷ []) ++ (chosen rnd 16 3 ++ b'$' ∷ 0 ∷ []))
unfolding make_salt strcpy put
make_salt_all rnd a b c = fill_salt_all rnd 16 3 (a ∷ b ∷ c ∷ []) (0 ∷ []) refl

-- The result is that of `crypt` for a salt of the prefix, 16 letters and `$`.
abbrev pub Salted : Option (Option Str) → (Str → Option Str) → Str → Type 0
Salted result crypt prefix =
    (letters : Str) × (result ≡ some (crypt (prefix ++ (letters ++ b'$' ∷ []))))
    × (length letters ≡ 16)
    × (all_letters letters ≡ true)

passcrypt_run :
    (crypt_r : Str → Str → Option Str) (rnd : ℕ → ℕ) (pass : Str) (h : HashAlgo) (p s : Str)
    → salt_prefix h ≡ some p
    → make_salt rnd p ≡ some (s ++ 0 ∷ [])
    → has_byte 0 s ≡ false
    → passcrypt crypt_r rnd pass h ≡ some (crypt_r pass s)
unfolding passcrypt
passcrypt_run crypt_r rnd pass h p s is made plain =
    rw (passcrypt, is, made, c_string_to_nul s [] plain) refl

prefix_no_nul :
    (a b c : ℕ) (s : Str)
    → has_byte 0 (a ∷ b ∷ c ∷ []) ≡ false
    → has_byte 0 s ≡ false
    → has_byte 0 (a ∷ b ∷ c ∷ s) ≡ false
unfolding has_byte
prefix_no_nul a b c s plain rest = ground arith

passcrypt_prefixed :
    (crypt_r : Str → Str → Option Str) (rnd : ℕ → ℕ) (pass : Str) (h : HashAlgo) (a b c : ℕ)
    → salt_prefix h ≡ some (a ∷ b ∷ c ∷ [])
    → has_byte 0 (a ∷ b ∷ c ∷ []) ≡ false
    → Salted (passcrypt crypt_r rnd pass h) (crypt_r pass) (a ∷ b ∷ c ∷ [])
passcrypt_prefixed crypt_r rnd pass h a b c is plain = (
  chosen rnd 16 3,
  passcrypt_run crypt_r rnd pass h (a ∷ b ∷ c ∷ [])
      ((a ∷ b ∷ c ∷ []) ++ (chosen rnd 16 3 ++ b'$' ∷ [])) is (make_salt_all rnd a b c)
      (prefix_no_nul a b c (chosen rnd 16 3 ++ b'$' ∷ []) plain
        (letters_no_nul (chosen rnd 16 3) (chosen_letters rnd 16 3))),
  length-chosen rnd 16 3,
  chosen_letters rnd 16 3,
)

-- `ac_misc_passcrypt`, whatever the random numbers, writes only inside `salt` and ends it with a NUL.
-- For `AC_HASH_ALGO_SHA1` it returns NULL; for the other three it calls `crypt_r` with the password
-- and the prefix of the hash, `$1$`, `$5$` or `$6$`, then 16 characters that are letters, digits, `.`
-- or `/`, and `$`.
pub passcrypt-Salted :
    (crypt_r : Str → Str → Option Str) (rnd : ℕ → ℕ) (pass : Str)
    → Salted (passcrypt crypt_r rnd pass md5) (crypt_r pass) (codes "$1$")
      × (passcrypt crypt_r rnd pass sha1 ≡ some none)
      × Salted (passcrypt crypt_r rnd pass sha256) (crypt_r pass) (codes "$5$")
      × Salted (passcrypt crypt_r rnd pass sha512) (crypt_r pass) (codes "$6$")
unfolding passcrypt salt_prefix has_byte
passcrypt-Salted crypt_r rnd pass = (
  passcrypt_prefixed crypt_r rnd pass md5 b'$' b'1' b'$' refl refl,
  refl,
  passcrypt_prefixed crypt_r rnd pass sha256 b'$' b'5' b'$' refl refl,
  passcrypt_prefixed crypt_r rnd pass sha512 b'$' b'6' b'$' refl refl,
)
