-- ===== src/Heap/Nodes.antt =====
-- A list on the heap as a list of the addresses and data of its nodes, in order.
use mathlib.Core.List.{append-nil, append_assoc}
use libac.Prelude.{
  ℕ, ◌≡◌, refl, sym, Bool, true, false, ◌||◌, Option, List, [], ◌∷◌, ◌++◌, map, arith, ◌==◌,
  if◌then◌else◌,
}
use libac.Heap.{Ptr, null}

abbrev pub Nodes : Type 0
Nodes = List (Ptr × ℕ)

abbrev pub has : Ptr → Nodes → Bool
has a [] = false
has a ((b, _) ∷ xs) = (a == b) || has a xs

pub has-append : (a : Ptr) (xs ys : Nodes) → has a (xs ++ ys) ≡ (has a xs || has a ys)
has-append a [] ys = refl
has-append a ((b, d) ∷ xs) ys = ground (arith, has-append a xs ys)

-- The two heaps agree at all other addresses.
abbrev pub SameOutside : {N : Type 0} → Nodes → (Ptr → Option N) → (Ptr → Option N) → Type 0
SameOutside xs c c' = (b : Ptr) → has b xs ≡ false → c' b ≡ c b

-- The address of the last of a node and those behind it.
abbrev pub last_addr : Ptr → Nodes → Ptr
last_addr a [] = a
last_addr a ((b, _) ∷ xs) = last_addr b xs

abbrev pub datum : Ptr × ℕ → ℕ
datum (_, d) = d

-- The first node whose datum passes the test, NULL if there is none.
abbrev pub first : (ℕ → Bool) → Nodes → Ptr
first found [] = null
first found ((a, d) ∷ xs) = if found d then a else first found xs

-- The calls of `free_data` for all the nodes
abbrev pub freed_calls : Bool → List ℕ → Nodes → List ℕ
freed_calls free_data log xs = if free_data then log ++ map datum xs else log

pub no_calls : (fd : Bool) (log : List ℕ) → log ≡ freed_calls fd log []
no_calls true log = sym (append-nil log)
no_calls false log = refl

pub more_calls :
    (fd : Bool) (log : List ℕ) (a : Ptr) (d : ℕ) (xs : Nodes)
    → freed_calls fd (if fd then log ++ d ∷ [] else log) xs ≡ freed_calls fd log ((a, d) ∷ xs)
more_calls true log a d xs = append_assoc log (d ∷ []) (map datum xs)
more_calls false log a d xs = refl
