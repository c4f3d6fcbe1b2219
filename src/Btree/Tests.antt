-- ===== src/Btree/Tests.antt =====
-- Runs of the tree on a list of numbers.
use libac.Prelude.{ℕ, ◌≡◌, refl, none, some, List, [], ◌∷◌, ◌==◌, Bool, arith}
use libac.Btree.{Tsearch, Btree, lookup, remove}
use libac.Btree.Laws.{IsTsearch}
use libac.Btree.Lists.{lists, lists-IsTsearch}

abbrev equal : ℕ → ℕ → Bool
equal a b = a == b

abbrev tree : Btree ℕ (List ℕ)
tree = record { rootp = 5 ∷ 3 ∷ 8 ∷ []; freed = [] }

equal-IsTsearch : IsTsearch (lists equal) equal
equal-IsTsearch = lists-IsTsearch equal (λ a b. ground arith) (λ a b c h. ground arith)

abbrev numbers : Tsearch ℕ (List ℕ) ℕ
numbers = lists equal

-- The parent of 8 is 5 and is still there; the root's is not, and the tree is not empty.
removed_below : remove numbers tree 8 ≡ some (some 5, record { rootp = 5 ∷ 3 ∷ []; freed = 8 ∷ [] })
unfolding remove lookup
removed_below = refl

removed_root : remove numbers tree 5 ≡ none
unfolding remove lookup
removed_root = refl
