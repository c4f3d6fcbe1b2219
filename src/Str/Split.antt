-- ===== src/Str/Split.antt =====
-- `ac_str_split`.
use Prim.Native.Nat.{bit_and}
use libac.Prelude.{
  ℕ, ◌+◌, ◌-◌, ◌^◌, ◌<◌, ◌≡◌, ◌⊎◌, ◌≢◌, false, Option, none, some, List, [], ◌∷◌, ◌++◌, ◌==◌,
  if◌then◌else◌, length,
}
use libac.Str.{Str, has_byte}

-- The fields with the delimiter between them.
pub join : ℕ → List Str → Str
join delim [] = []
join delim (f ∷ []) = f
join delim (f ∷ g ∷ fs) = f ++ delim ∷ join delim (g ∷ fs)

abbrev pub NoneHas : ℕ → List Str → Type 0
NoneHas delim [] = Unit
NoneHas delim (f ∷ fs) = (has_byte delim f ≡ false) × NoneHas delim fs

-- How often the delimiter stands in the string.
pub occurrences : ℕ → Str → ℕ
occurrences delim [] = 0
occurrences delim (c ∷ s) = if c == delim then occurrences delim s + 1 else occurrences delim s

-- What is left after the first token.
abbrev Rest : ℕ → Str → Str → Option Str → Type 0
Rest delim s tok none = (tok ≡ s) × (occurrences delim s ≡ 0)
Rest delim s tok (some r) =
    (s ≡ tok ++ delim ∷ r) × (length r < length s) × (occurrences delim s ≡ occurrences delim r + 1)

abbrev Cut : ℕ → Str → Str × Option Str → Type 0
Cut delim s (tok, rest) = (has_byte delim tok ≡ false) × Rest delim s tok rest

-- What the loop gives.
abbrev Fields : ℕ → Str → Option (List Str) → Type 0
Fields delim s run =
    (fs : List Str) × (run ≡ some fs)
    × (join delim fs ≡ s)
    × NoneHas delim fs
    × (length fs ≡ occurrences delim s + 1)

-- What `ac_str_split` gives: NULL for unknown flags; no field for the empty string, nor for a string
-- without the delimiter under `AC_STR_SPLIT_STRICT`; and else the fields.
pub data Splits (delim : ℕ) (s : Str) (flags : ℕ) : Option (Option (List Str)) → Type 0 where
  bad_flags : bit_and flags (2 ^ 32 - 2) ≢ 0 → Splits delim s flags (some none)
  no_fields :
      bit_and flags (2 ^ 32 - 2) ≡ 0
      → (s ≡ []) ⊎ ((bit_and flags 1 ≡ 1) × (occurrences delim s ≡ 0))
      → Splits delim s flags (some (some []))
  fields :
      {fs : List Str}
      → bit_and flags (2 ^ 32 - 2) ≡ 0
      → s ≢ []
      → join delim fs ≡ s
      → NoneHas delim fs
      → length fs ≡ occurrences delim s + 1
      → Splits delim s flags (some (some fs))
