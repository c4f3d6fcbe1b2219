-- ===== src/Quark/Tests.antt =====
-- Runs of the quarks on a list as the tree.
use libac.Prelude.{◌≡◌, refl, ap, some, List, [], ◌∷◌, map, arith}
use libac.Prelude.Int.{ℤ, pos}
use libac.Prelude.Text.{codes}
use libac.Str.{Str, same_str}
use libac.Btree.Laws.{IsTsearch}
use libac.Btree.Lists.{lists, lists-IsTsearch}
use libac.Quark.{QuarkNode, Quark, quark_compar, to_string, init}
use libac.Quark.Names.{place, same_str-≡}
use libac.Quark.Runs.{all_names, from_strings, to_string-from_strings}

same_str-swap : (s t : Str) → same_str s t ≡ same_str t s
unfolding same_str
same_str-swap [] [] = refl
same_str-swap [] (b ∷ t) = refl
same_str-swap (a ∷ s) [] = refl
same_str-swap (a ∷ s) (b ∷ t) = ground (arith, same_str-swap s t)

quark_compar-IsTsearch : IsTsearch (lists quark_compar) quark_compar
unfolding quark_compar
quark_compar-IsTsearch =
    lists-IsTsearch quark_compar (λ a b. same_str-swap a.string b.string)
      (λ a b c h. ap (λ s. same_str s c.string) (same_str-≡ a.string b.string h))

abbrev strings : List Str
strings = codes "red" ∷ codes "blue" ∷ codes "red" ∷ []

to_string-from_strings_example :
    (ids : List ℤ) × (q : Quark (List QuarkNode)) × (from_strings
        (lists quark_compar)
        (init (lists quark_compar))
        strings
      ≡ some (ids, q))
    × (ids ≡ map (λ s. pos (place s (all_names [] strings))) strings)
    × (map (to_string q) ids ≡ map (λ s. some (some s)) strings)
to_string-from_strings_example =
    to_string-from_strings (lists quark_compar) strings quark_compar-IsTsearch (omega arith)
