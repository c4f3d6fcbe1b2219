-- ===== src/Quark/Names.antt =====
-- The nodes of a list of strings: the number of a string is its place.
use libac.Prelude.{
  ℕ, zero, suc, ◌+◌, ◌≤◌, ◌<◌, ◌≡◌, refl, sym, ap, ◌∙◌, true, false, Bool-cases, inl, inr, Option,
  none, some, List, [], ◌∷◌, ◌++◌, ltb, if◌then◌else◌, get_elem?, take, length, arith,
}
use libac.Prelude.Int.{pos}
use libac.Str.{Str, same_str}
use libac.Quark.{QuarkNode}

-- The nodes of the strings, numbered from `i`
abbrev pub numbered : ℕ → List Str → List QuarkNode
numbered i [] = []
numbered i (s ∷ ss) = record { id = pos i; string = s } ∷ numbered (i + 1) ss

abbrev pub node_of : Str → List QuarkNode → Option QuarkNode
node_of s [] = none
node_of s (n ∷ ns) = if same_str s n.string then some n else node_of s ns

-- The place of a string, the length of the list if it is not there
abbrev pub place : Str → List Str → ℕ
place s [] = 0
place s (t ∷ ss) = if same_str s t then 0 else suc (place s ss)

-- The strings after one more call
abbrev pub with_name : Str → List Str → List Str
with_name s names = if ltb (place s names) (length names) then names else names ++ s ∷ []

pub same_str-≡ : (s t : Str) → same_str s t ≡ true → s ≡ t
unfolding same_str
same_str-≡ [] [] h = refl
same_str-≡ [] (b ∷ t) h = cc
same_str-≡ (a ∷ s) [] h = cc
same_str-≡ (a ∷ s) (b ∷ t) h = ground (arith, same_str-≡ s t)

pub node_of-numbered :
    (s : Str) (i : ℕ) (names : List Str)
    → node_of s (numbered i names) ≡ (
        if ltb (place s names) (length names)
        then some (record { id = pos (i + place s names); string = s })
        else none)
node_of-numbered s i [] = ground arith
node_of-numbered s i (t ∷ names) = ground (arith, same_str-≡ s t, node_of-numbered s (i + 1) names)

abbrev pub node_at : ℕ → Option Str → Option QuarkNode
node_at k none = none
node_at k (some s) = some (record { id = pos k; string = s })

pub get_elem?-numbered :
    (i k : ℕ) (names : List Str)
    → get_elem? (numbered i names) k ≡ node_at (i + k) (get_elem? names k)
get_elem?-numbered i k [] = refl
get_elem?-numbered i zero (s ∷ names) =
    ap (λ k. some (record { id = pos k; string = s })) (omega arith)
get_elem?-numbered i (suc k) (s ∷ names) =
    get_elem?-numbered (i + 1) k names ∙ ap (λ m. node_at m (get_elem? names k)) (omega arith)

pub numbered-append :
    (i : ℕ) (names : List Str) (s : Str)
    → numbered i (names ++ s ∷ [])
      ≡ numbered i names ++ record { id = pos (i + length names); string = s } ∷ []
numbered-append i [] s = ap (λ k. record { id = pos k; string = s } ∷ []) (omega arith)
numbered-append i (t ∷ names) s =
    ap (λ ns. record { id = pos i; string = t } ∷ ns)
      (numbered-append (i + 1) names s
        ∙ ap (λ k. numbered (i + 1) names ++ record { id = pos k; string = s } ∷ []) (omega arith))

pub node_of-append :
    (s : Str) (ns : List QuarkNode) (n : QuarkNode)
    → node_of s (ns ++ n ∷ []) ≡ elim (node_of s ns) [
      | some m ↦ some m
      | none ↦ if same_str s n.string then some n else none
    ]
node_of-append s [] n = refl
node_of-append s (m ∷ ns) n = elim (Bool-cases (same_str s m.string)) [
  | inl hit ↦ rw hit refl
  | inr miss ↦ rw miss (node_of-append s ns n)
]

pub take-numbered :
    (i : ℕ) (names : List Str) → take (length names) (numbered i names) ≡ numbered i names
take-numbered i [] = refl
take-numbered i (s ∷ names) =
    ap (λ ns. record { id = pos i; string = s } ∷ ns) (take-numbered (i + 1) names)

pub get_elem?_out {ℓ} : {A : Type ℓ} (xs : List A) (i : ℕ) → length xs ≤ i → get_elem? xs i ≡ none
get_elem?_out [] i h = refl
get_elem?_out (x ∷ xs) zero h = absurd (omega arith)
get_elem?_out (x ∷ xs) (suc i) h = get_elem?_out xs i (omega arith)

pub get_elem?_in {ℓ} :
    {A : Type ℓ} (xs : List A) (i : ℕ) → i < length xs → (x : A) × (get_elem? xs i ≡ some x)
get_elem?_in [] i h = absurd (omega arith)
get_elem?_in (x ∷ xs) zero h = (x, refl)
get_elem?_in (x ∷ xs) (suc i) h = get_elem?_in xs i (omega arith)

pub get_elem?-place :
    (s : Str) (names : List Str)
    → place s names < length names
    → get_elem? names (place s names) ≡ some s
get_elem?-place s [] h = absurd (omega arith)
get_elem?-place s (t ∷ names) h = elim (Bool-cases (same_str s t)) [
  | inl hit ↦ rw hit (ap some (sym (same_str-≡ s t hit)))
  | inr miss ↦ rw miss (get_elem?-place s names (ground (arith, miss)))
]

pub same_str_refl : (s : Str) → same_str s s ≡ true
unfolding same_str
same_str_refl [] = refl
same_str_refl (a ∷ s) = ground (arith, same_str_refl s)

-- A new string goes last.
pub place-append :
    (s : Str) (names : List Str)
    → ltb (place s names) (length names) ≡ false
    → place s (names ++ s ∷ []) ≡ length names
place-append s [] new = rw (same_str_refl s) refl
place-append s (t ∷ names) new = elim (Bool-cases (same_str s t)) [
  | inl hit ↦ ground (arith, hit)
  | inr miss ↦ rw miss (ap suc (place-append s names (ground (arith, miss))))
]
