-- ===== src/Heap/Erase.antt =====
-- What the removal of the first node that passes a test does to the list of the nodes.
use libac.Prelude.{
  ℕ, ◌+◌, ◌≡◌, refl, Bool, true, false, ◌||◌, Option, none, List, [], ◌∷◌, ◌++◌, arith,
  if◌then◌else◌,
}
use libac.Heap.{Ptr}
use libac.Heap.Nodes.{Nodes, has}

module _ (found : ℕ → ℕ → Bool) where
  -- Whether a node passes the test, counting from `i`.
  unfoldable pub any_from : ℕ → Nodes → Bool
  any_from i [] = false
  any_from i ((a, d) ∷ xs) = found i d || any_from (i + 1) xs

  -- The list without its first node that passes.
  unfoldable pub erase_from : ℕ → Nodes → Nodes
  erase_from i [] = []
  erase_from i ((a, d) ∷ xs) = if found i d then xs else (a, d) ∷ erase_from (i + 1) xs

  -- The calls of `free_data`: for that node's datum.
  unfoldable pub calls_from : Bool → List ℕ → ℕ → Nodes → List ℕ
  calls_from fd log i [] = log
  calls_from fd log i ((a, d) ∷ xs) =
      if found i d then (if fd then log ++ d ∷ [] else log) else calls_from fd log (i + 1) xs

  pub has-erase_from :
      (i : ℕ) (a : Ptr) (xs : Nodes) → has a xs ≡ false → has a (erase_from i xs) ≡ false
  unfolding erase_from
  has-erase_from i a [] out = refl
  has-erase_from i a ((b, d) ∷ xs) out = ground (arith, has-erase_from (i + 1) a xs)

-- The nodes taken out of `xs` are free.
abbrev pub Freed : {N : Type 0} → Nodes → Nodes → (Ptr → Option N) → Type 0
Freed xs ys c = (b : Ptr) → has b xs ≡ true → has b ys ≡ false → c b ≡ none
