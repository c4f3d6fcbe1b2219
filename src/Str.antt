-- ===== src/Str.antt =====
-- src/ac_str.c: strings as the list of their bytes, without the final NUL.
--
-- The strings are short enough for `int` to hold their lengths. An operation returns `none` at an
-- access outside an array, and when its fuel is spent.
pub mod Levenshtein
pub mod Split
pub mod Chomp
pub mod Substr
mod Tests
use Prim.Native.Nat.{bit_and}
use mathlib.Core.List
use libac.Prelude.{
  ℕ, zero, suc, ◌+◌, ◌-◌, ◌/◌, ◌%◌, ◌^◌, Bool, true, false, ◌&&◌, ◌||◌, Option, none, some, List,
  [], ◌∷◌, ◌==◌, ltb, if◌then◌else◌, length, replicate, get_or, drop,
}
use libac.Mem.{memcpy, mem_read}

abbrev pub Str : Type 0
Str = List ℕ

unfoldable pub is_delim : ℕ → List ℕ → Bool
is_delim c [] = false
is_delim c (d ∷ delims) = if c == d then true else is_delim c delims

-- The search of `strsep(3)` for the first delimiter: what is before it, and what is behind it if
-- there is one.
unfoldable pub until : List ℕ → Str → Str × Option Str
unfolding is_delim
until delims [] = ([], none)
until delims (c ∷ s) =
    let (tok, rest) = until delims s in if is_delim c delims then ([], some s) else (c ∷ tok, rest)

-- `strsep(3)` with a string of delimiters: the token and the new `*stringp`, or NULL.
unfoldable pub strsep : List ℕ → Option Str → Option (Str × Option Str)
unfolding until
strsep delims none = none
strsep delims (some s) = some (until delims s)

unfoldable pub has_byte : ℕ → Str → Bool
has_byte b [] = false
has_byte b (c ∷ s) = (c == b) || has_byte b s

-- `strchr(3)`, as the test for NULL: the `int` is converted to a `char`, and 0 is found at the end of
-- every string.
unfoldable pub has_char : ℕ → Str → Bool
unfolding has_byte
has_char delim s = (delim % 2 ^ 8 == 0) || has_byte (delim % 2 ^ 8) s

-- The bytes of an `int` up to its first zero byte, the lowest one first, `n` bytes to go; `none` if
-- there is no zero byte.
unfoldable pub bytes_to_nul : ℕ → ℕ → Option (List ℕ)
bytes_to_nul zero delim = none
bytes_to_nul (suc n) delim =
    let rest = bytes_to_nul n (delim / 2 ^ 8) in
    if delim % 2 ^ 8 == 0
    then some []
    else elim rest [ none ↦ none | some bs ↦ some (delim % 2 ^ 8 ∷ bs) ]

-- The string `(char *)&delim`, on a machine that stores the lowest byte first; `none` is a read behind
-- the `int`, which is given by its 32 bits.
unfoldable pub delimiters : ℕ → Option (List ℕ)
unfolding bytes_to_nul
delimiters delim = bytes_to_nul 4 delim

-- The loop of `ac_str_split`
unfoldable pub fields_from : ℕ → List ℕ → Option Str → Option (List Str)
unfolding strsep
fields_from zero delims strd = none
fields_from (suc f) delims strd = elim (strsep delims strd) [
  | none ↦ some []
  | some (tok, rest) ↦ elim (fields_from f delims rest) [
    | none ↦ none
    | some fields ↦ some (tok ∷ fields)
  ]
]

-- `ac_str_split`. The outer option is a loop that runs on or a read outside `delim`, the inner one is
-- NULL for unknown flags.
unfoldable pub split : ℕ → Str → ℕ → ℕ → Option (Option (List Str))
unfolding fields_from has_char delimiters
split fuel string delim flags =
    if bit_and flags (2 ^ 32 - 2) == 0
    then if (length string == 0) || (if has_char delim string then false else bit_and flags 1 == 1)
      then some (some [])
      else elim (delimiters delim) [
        | none ↦ none
        | some delims ↦ elim (fields_from fuel delims (some string)) [
          | none ↦ none
          | some l ↦ some (some l)
        ]
      ]
    else some none

-- `*ptr == ' ' || *ptr == '\t' || *ptr == '\n' || *ptr == '\r'`
unfoldable pub is_white : ℕ → Bool
is_white c = (c == 32) || (c == 9) || (c == 10) || (c == 13)

-- The loop of `ac_str_chomp`, on the bytes before `ptr`, the nearest one first. `none` is the read
-- of the byte before the string.
unfoldable pub chomp_back : Str → Option Str
unfolding is_white
chomp_back [] = none
chomp_back (c ∷ s) = let rest = chomp_back s in if is_white c then rest else some (c ∷ s)

-- `ac_str_chomp`
unfoldable pub chomp : Str → Option Str
unfolding chomp_back
chomp string = elim (chomp_back (List.reverse string)) [
  | none ↦ none
  | some s ↦ some (List.reverse s)
]

-- `ac_str_substr`, on the arrays of `src` and `dest`
unfoldable pub substr : List ℕ → List ℕ → ℕ → ℕ → Option (List ℕ)
unfolding memcpy mem_read
substr src dest start len = elim (mem_read src start len) [
  | none ↦ none
  | some bytes ↦ elim (memcpy dest 0 bytes len) [
    | none ↦ none
    | some dest' ↦ memcpy dest' len (0 ∷ []) 1
  ]
]

unfoldable pub minimum : ℕ → ℕ → ℕ → ℕ
minimum a b c = let min = if ltb b a then b else a in if ltb c min then c else min

-- The inner loop of `ac_str_levenshtein`: `t` and `v0` are `t[j]` and `v0[j]` onwards, `left` is
-- `v1[j]`. The result is `v1[j]` onwards.
unfoldable pub row : ℕ → Str → List ℕ → ℕ → List ℕ
unfolding minimum
row c [] v0 left = left ∷ []
row c (b ∷ t) v0 left =
    left
    ∷ row c t (drop 1 v0)
        (minimum (left + 1) (get_or v0 1 0 + 1) (get_or v0 0 0 + (if c == b then 0 else 1)))

-- The outer loop from `s[i]` on. The result is `v1`, which is `v0` too after each round.
unfoldable pub rows : ℕ → Str → Str → List ℕ → List ℕ → List ℕ
unfolding row
rows i [] t v0 v1 = v1
rows i (c ∷ s) t v0 v1 = let v = row c t v0 (i + 1) in rows (i + 1) s t v v

-- `0 .. n`
unfoldable pub count_from : ℕ → ℕ → List ℕ
count_from i zero = i ∷ []
count_from i (suc n) = i ∷ count_from (i + 1) n

-- `strcmp(s, t) == 0`
unfoldable pub same_str : Str → Str → Bool
same_str [] [] = true
same_str [] (b ∷ t) = false
same_str (a ∷ s) [] = false
same_str (a ∷ s) (b ∷ t) = (a == b) && same_str s t

-- `ac_str_levenshtein`; `junk` is what `malloc` leaves in the array `v1`.
unfoldable pub levenshtein : ℕ → Str → Str → ℕ
unfolding rows count_from same_str
levenshtein junk s t =
    if same_str s t
    then 0
    else get_or (rows 0 s t (count_from 0 (length t)) (replicate (length t + 1) junk)) (length t) 0
