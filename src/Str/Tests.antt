-- ===== src/Str/Tests.antt =====
-- Runs of the string functions. 97 is 'a', 44 is ',', 32 is ' '.
use libac.Prelude.{ℕ, ◌≤◌, ◌≡◌, refl, ◌⊎◌, ◌+◌, ◌*◌, true, false, none, some, List, [], ◌∷◌, ◌++◌}
use libac.Str.{
  Str, is_white, is_delim, until, strsep, has_byte, has_char, bytes_to_nul, delimiters, fields_from,
  split, chomp, levenshtein,
}
use libac.Str.Levenshtein.{Edits, levenshtein-Cheapest}
use libac.Str.Chomp.{all_white, chomp_lem}

abbrev bat : Str
bat = 98 ∷ 97 ∷ 116 ∷ []

abbrev cats : Str
cats = 99 ∷ 97 ∷ 116 ∷ 115 ∷ []

levenshtein-Cheapest_example :
    Edits (levenshtein 7 bat cats) bat cats
    × ((n : ℕ) → Edits n bat cats → levenshtein 7 bat cats ≤ n)
levenshtein-Cheapest_example = levenshtein-Cheapest 7 bat cats (λ e. cc e)

chomp_lem_example :
    ((all_white (97 ∷ 32 ∷ 10 ∷ []) ≡ true) × (chomp (97 ∷ 32 ∷ 10 ∷ []) ≡ none))
    ⊎ ((p : Str) × (c : ℕ) × (w : Str) × (chomp (97 ∷ 32 ∷ 10 ∷ []) ≡ some (p ++ c ∷ []))
        × (97 ∷ 32 ∷ 10 ∷ [] ≡ (p ++ c ∷ []) ++ w)
        × (all_white w ≡ true)
        × (is_white c ≡ false))
chomp_lem_example = chomp_lem (97 ∷ 32 ∷ 10 ∷ [])

abbrev bytes : List ℕ
bytes = 9 ∷ 9 ∷ 9 ∷ 9 ∷ []

-- A strict split on NUL gives the whole string.
split_nul : split 9 (97 ∷ 98 ∷ []) 0 1 ≡ some (some ((97 ∷ 98 ∷ []) ∷ []))
unfolding split fields_from has_char has_byte delimiters bytes_to_nul strsep until is_delim
split_nul = refl

-- The bytes of a larger number are delimiters, one by one.
split_two :
    split 9 (97 ∷ 44 ∷ 98 ∷ 59 ∷ []) (44 + 59 * 256) 0
    ≡ some (some ((97 ∷ []) ∷ (98 ∷ []) ∷ [] ∷ []))
unfolding split fields_from has_char has_byte delimiters bytes_to_nul strsep until is_delim
split_two = refl
