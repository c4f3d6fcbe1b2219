-- ===== src/Slist/Tests.antt =====
-- Runs of the singly linked list on a heap of three nodes.
use libac.Heap.{null}
use libac.Heap.Nodes.{Nodes, SameOutside}
use libac.Prelude.{ℕ, ◌≡◌, refl, Bool, true, none, some, [], ◌∷◌, arith, ◌==◌, if◌then◌else◌}
use mathlib.Core.List
use libac.Prelude.Int.{ℤ}
use libac.Heap.{is_position}
use libac.Slist.{node, Cells, Store, reverse, remove, remove_nth, remove_custom}
use libac.Slist.Chain.{done, link, Holds}
use libac.Slist.Reverse.{reverse_lem}
use libac.Slist.Remove.{Removes, removals}

abbrev pub three : Cells
three a =
    if a == 4
    then some (node 10 9)
    else if a == 9
    then some (node 20 2)
    else if a == 2
    then some (node 10 null)
    else none

abbrev pub items : Nodes
items = (4, 10) ∷ (9, 20) ∷ (2, 10) ∷ []

abbrev pub heap : Store
heap = record { root = 4; cell = three; calls = [] }

pub heap-Holds : Holds heap items
heap-Holds =
    link (omega arith) refl refl (link (omega arith) refl refl (link (omega arith) refl refl done))

reverse_lem_example :
    (s' : Store) × (reverse 4 heap ≡ some (tt, s'))
    × Holds s' (List.reverse items)
    × (s'.calls ≡ [])
    × SameOutside items three s'.cell
reverse_lem_example = reverse_lem heap 4 heap-Holds (omega arith)

removals_example :
    ((item : ℕ) → Removes (λ i d. d == item) heap true items (remove 4 item true heap))
    × ((n : ℤ) → Removes (λ i d. is_position n i) heap true items (remove_nth 4 n true heap))
    × ((same : ℕ → Bool) → Removes (λ i d. same d) heap true items (remove_custom 4 same true heap))
removals_example = removals heap 4 true heap-Holds (omega arith)
