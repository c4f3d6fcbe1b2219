-- ===== src/Dlist/Tests.antt =====
-- Runs of the doubly linked list on a heap of three nodes.
use mathlib.Core.List
use libac.Heap.{is_position, null}
use libac.Heap.Nodes.{Nodes, SameOutside, datum}
use libac.Prelude.Int.{ℤ}
use libac.Prelude.{
  ℕ, ◌≡◌, refl, Bool, true, map, none, some, [], ◌∷◌, ◌++◌, arith, ◌==◌, if◌then◌else◌,
}
use libac.Dlist.Read.{foreach_both}
use libac.Dlist.{
  node, Cells, Store, add, preadd, reverse, remove, foreach, rev_foreach, remove_nth, remove_custom,
}
use libac.Dlist.Chain.{done, link, Holds}
use libac.Dlist.Add.{Leaves, add-Leaves}
use libac.Dlist.Preadd.{Fronts, no_more, front, preadd-Fronts}
use libac.Dlist.Reverse.{reverse_both_ways}
use libac.Dlist.Remove.{Removes, removals_both_ways}

abbrev three : Cells
three a =
    if a == 4
    then some (node 10 null 9)
    else if a == 9
    then some (node 20 4 2)
    else if a == 2
    then some (node 10 9 null)
    else none

abbrev items : Nodes
items = (4, 10) ∷ (9, 20) ∷ (2, 10) ∷ []

abbrev heap : Store
heap = record { root = 4; cell = three; calls = [] }

heap-Holds : Holds heap items
heap-Holds =
    link (omega arith) refl refl (link (omega arith) refl refl (link (omega arith) refl refl done))

add-Leaves_example : Leaves heap (add 4 7 30 heap) (items ++ (7, 30) ∷ [])
add-Leaves_example = add-Leaves heap 7 30 4 (omega arith) refl heap-Holds (omega arith)

reverse_both_ways_example :
    (s' : Store) × (reverse 4 heap ≡ some (tt, s'))
    × Holds s' (List.reverse items)
    × (s'.calls ≡ [])
    × SameOutside items three s'.cell
reverse_both_ways_example = reverse_both_ways heap 4 heap-Holds (omega arith)

foreach_both_example :
    (foreach 4 heap.root heap ≡ some (tt, record heap { calls = heap.calls ++ map datum items }))
    × (rev_foreach 4 heap.root heap
        ≡ some (tt, record heap { calls = heap.calls ++ map datum (List.reverse items) }))
foreach_both_example = foreach_both heap 4 heap-Holds (omega arith)

removals_both_ways_example :
    ((item : ℕ) → Removes (λ i d. d == item) heap true items (remove 4 item true heap))
    × ((n : ℤ) → Removes (λ i d. is_position n i) heap true items (remove_nth 4 n true heap))
    × ((same : ℕ → Bool) → Removes (λ i d. same d) heap true items (remove_custom 4 same true heap))
removals_both_ways_example = removals_both_ways heap 4 true heap-Holds (omega arith)

-- Two nodes that `ac_list_preadd` made
abbrev two : Store
two = record {
  root = 5;
  cell = λ a.
      if a == 5 then some (node 20 null 3) else if a == 3 then some (node 10 null null) else none;
  calls = [];
}

two-Fronts : Fronts two.cell 5 ((5, 20) ∷ (3, 10) ∷ [])
two-Fronts = front (omega arith) refl refl (front (omega arith) refl refl no_more)

preadd-Fronts_example :
    (s' : Store) × (preadd 7 30 two ≡ some (tt, s'))
    × Fronts s'.cell s'.root ((7, 30) ∷ (5, 20) ∷ (3, 10) ∷ [])
    × ((s'' : Store) × (reverse 5 s' ≡ some (tt, s'')) × Holds s'' ((3, 10) ∷ []))
preadd-Fronts_example = preadd-Fronts two 7 30 5 (omega arith) refl two-Fronts (omega arith)
