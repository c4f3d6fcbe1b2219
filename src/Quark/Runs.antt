-- ===== src/Quark/Runs.antt =====
-- Several calls of `ac_quark_from_string`, one after the other.
use libac.Prelude.{
  suc, ◌+◌, ◌^◌, ◌<◌, ◌≤◌, ◌≡◌, refl, sym, ap, ◌∙◌, Bool-cases, inl, inr, Option, none, some, List,
  [], ◌∷◌, ◌++◌, map, ltb, get_elem?, length, length-append, arith,
}
use libac.Prelude.Int.{ℤ, pos}
use libac.Str.{Str, same_str}
use libac.Btree.{Tsearch}
use libac.Btree.Laws.{IsTsearch}
use libac.Quark.{QuarkNode, Quark, quark_compar, to_string, init, from_string}
use libac.Quark.Names.{place, with_name, get_elem?-place, place-append}
use libac.Quark.Laws.{IsQuark, to_string-names, init-IsQuark, from_string-Interns}

-- The strings after the calls
abbrev pub all_names : List Str → List Str → List Str
all_names names [] = names
all_names names (s ∷ ss) = all_names (with_name s names) ss

place-old :
    (s t : Str) (names : List Str)
    → place s names < length names
    → place s (names ++ t ∷ []) ≡ place s names
place-old s t [] h = absurd (omega arith)
place-old s t (u ∷ names) h = elim (Bool-cases (same_str s u)) [
  | inl hit ↦ ground (arith, hit)
  | inr miss ↦ rw miss (ap suc (place-old s t names (ground (arith, miss))))
]

-- Strings keep their places.
place-with_name :
    (s t : Str) (names : List Str)
    → place s names < length names
    → (place s (with_name t names) ≡ place s names) × (place s names < length (with_name t names))
place-with_name s t names h = ground (arith, place-old s t names, length-append names (t ∷ []))

place-all_names :
    (s : Str) (names ss : List Str)
    → place s names < length names
    → (place s (all_names names ss) ≡ place s names) × (place s names < length (all_names names ss))
place-all_names s names [] h = (refl, h)
place-all_names s names (t ∷ ss) h =
    let (same, inside) = place-with_name s t names h in
    let (same', inside') = place-all_names s (with_name t names) ss (omega arith) in
    (same' ∙ same, omega arith)

place_self : (s : Str) (names : List Str) → place s (with_name s names) < length (with_name s names)
place_self s names = elim (Bool-cases (ltb (place s names) (length names))) [
  | inl old ↦ ground (arith, old)
  | inr new ↦ ground (arith, new, place-append s names new, length-append names (s ∷ []))
]

module _ {T E : Type 0} (lib : Tsearch QuarkNode T E) where
  -- The calls for a list of strings
  pub from_strings : Quark T → List Str → Option (List ℤ × Quark T)
  from_strings q [] = some ([], q)
  from_strings q (s ∷ ss) = elim (from_string lib q s) [
    | none ↦ none
    | some (id, q') ↦ elim (from_strings q' ss) [
      | none ↦ none
      | some (ids, q'') ↦ some (id ∷ ids, q'')
    ]
  ]

  strings_run :
      (q q' q'' : Quark T) (s : Str) (ss : List Str) {id : ℤ} {ids : List ℤ}
      → from_string lib q s ≡ some (id, q')
      → from_strings q' ss ≡ some (ids, q'')
      → from_strings q (s ∷ ss) ≡ some (id ∷ ids, q'')
  unfolding from_strings
  strings_run q q' q'' s ss run run' = rw (from_strings, run, run') refl

  abbrev InternsAll : List Str → List Str → Option (List ℤ × Quark T) → Type 0
  InternsAll ss names run =
      (ids : List ℤ) × (q' : Quark T) × (run ≡ some (ids, q'))
      × IsQuark lib q' (all_names names ss)
      × (ids ≡ map (λ s. pos (place s (all_names names ss))) ss)
      × (map (to_string q') ids ≡ map (λ s. some (some s)) ss)

  from_strings-InternsAll :
      (q : Quark T) (ss names : List Str)
      → IsTsearch lib quark_compar
      → IsQuark lib q names
      → length names + length ss < 2 ^ 31
      → InternsAll ss names (from_strings q ss)
  unfolding from_strings
  from_strings-InternsAll q [] names laws v small = ([], q, refl, v, refl, refl)
  from_strings-InternsAll q (s ∷ ss) names laws v small =
      let (q', run, v') = from_string-Interns lib q s names laws v (omega arith) in
      let grows : length (with_name s names) ≤ length names + 1 =
        ground (arith, length-append names (s ∷ [])) in
      let (ids, q'', run', v'', are, back) =
        from_strings-InternsAll q' ss (with_name s names) laws v' (omega arith) in
      let final = all_names (with_name s names) ss in
      let (same, inside) = place-all_names s (with_name s names) ss (place_self s names) in
      let id : ℤ = pos (place s (with_name s names)) in
      let shown : to_string q'' id ≡ some (some s) =
        (to_string-names lib q'' final v'').0 (place s (with_name s names))
        ∙ ap (λ k. some (get_elem? final k)) (sym same)
        ∙ ap some (get_elem?-place s final (omega arith)) in
      (
        id ∷ ids,
        q'',
        strings_run q q' q'' s ss run run',
        v'',
        (λ i. pos (sym same i) ∷ are i),
        (λ i. shown i ∷ back i),
      )

  -- `ac_quark_from_string` called for fewer than 2 ^ 31 strings, one after the other, on new quarks gives
  -- each string a number, the place of the string among the different ones in order of appearance, and
  -- at the end `ac_quark_to_string` gives every string back from its number.
  pub to_string-from_strings :
      (ss : List Str)
      → IsTsearch lib quark_compar
      → length ss < 2 ^ 31
      → (ids : List ℤ) × (q : Quark T) × (from_strings (init lib) ss ≡ some (ids, q))
        × (ids ≡ map (λ s. pos (place s (all_names [] ss))) ss)
        × (map (to_string q) ids ≡ map (λ s. some (some s)) ss)
  to_string-from_strings ss laws small =
      let (ids, q, run, v, are, back) =
        from_strings-InternsAll (init lib) ss [] laws (init-IsQuark lib laws) (omega arith) in
      (ids, q, run, are, back)
