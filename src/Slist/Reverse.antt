-- ===== src/Slist/Reverse.antt =====
-- `ac_slist_reverse` and `ac_slist_destroy`.
use mathlib.Core.List
use mathlib.Core.List.{reverse_aux, append-nil, append_assoc}
use libac.Heap.{Ptr, free-node, load-node, not_null, null, update}
use libac.Heap.Nodes.{Nodes, SameOutside, freed_calls, has, more_calls, no_calls}
use libac.Prelude.{
  ℕ, zero, suc, ◌<◌, ◌≡◌, refl, ◌∙◌, Bool, true, false, Option, none, some, List, [], ◌∷◌, ◌++◌,
  arith, length, if◌then◌else◌,
}
use libac.Slist.{node, Cells, Store, reverse_from, reverse, destroy}
use libac.Slist.Chain.{Chain, done, link, Holds, Chain-update, set_next-node}

abbrev pub Reversed : Store → Nodes → Nodes → Option (Unit {0} × Store) → Type 0
Reversed s xs ys run =
    (s' : Store) × (run ≡ some (tt, s'))
    × Holds s' (reverse_aux xs ys)
    × (s'.calls ≡ s.calls)
    × SameOutside xs s.cell s'.cell

-- The nodes still to be turned hang from the list variable, those turned from `prev`.
reverse_from-Reversed :
    (f : ℕ) (c : Cells) (log : List ℕ) {prev p : Ptr} {xs ys : Nodes}
    → Chain c null p xs
    → Chain c null prev ys
    → ((a : Ptr) → has a xs ≡ true → has a ys ≡ false)
    → length xs < f
    → Reversed
        (record { root = p; cell = c; calls = log })
        xs
        ys
        (reverse_from f prev (record { root = p; cell = c; calls = log }))
unfolding reverse_from
reverse_from-Reversed zero c log ch back apart fuel = absurd (omega arith)
reverse_from-Reversed (suc f) c log {prev} done back apart fuel =
    (record { root = prev; cell = c; calls = log }, refl, back, refl, λ b out. refl)
reverse_from-Reversed (suc f) c log {prev} {p} {ys} (link {n} {d} {xs} nn at own rest) back apart
      fuel =
    let s : Store = record { root = p; cell = c; calls = log } in
    let c' : Cells = update c p (some (node d prev)) in
    let out : has p ys ≡ false = apart p (ground arith) in
    let (s', run, held, same_calls, same) =
      reverse_from-Reversed f c' log {prev = p} {p = n} {ys = (p, d) ∷ ys}
        (Chain-update p (some (node d prev)) rest own)
        (link nn (ground arith) out (Chain-update p (some (node d prev)) back out))
        (λ a i. ground (arith, apart a)) (omega arith) in
    (
      s',
      rw (not_null nn, load-node s nn at, set_next-node s prev nn at) run,
      held,
      same_calls,
      λ b far. same b (ground arith) ∙ ground arith,
    )

-- `ac_slist_reverse` leaves the same nodes in reverse order, makes no call and writes nowhere else.
pub reverse_lem :
    (s : Store) (fuel : ℕ) {xs : Nodes}
    → Holds s xs
    → length xs < fuel
    → (s' : Store) × (reverse fuel s ≡ some (tt, s'))
      × Holds s' (List.reverse xs)
      × (s'.calls ≡ s.calls)
      × SameOutside xs s.cell s'.cell
unfolding reverse
reverse_lem s fuel held enough =
    reverse_from-Reversed fuel s.cell s.calls held done (λ a i. refl) enough

destroy-Chain :
    (f : ℕ) (free_data : Bool) (c : Cells) (log : List ℕ) {p : Ptr} {xs : Nodes}
    → Chain c null p xs
    → length xs < f
    → (s' : Store) × (destroy f free_data (record { root = p; cell = c; calls = log })
        ≡ some (tt, s'))
      × (s'.root ≡ null)
      × (s'.calls ≡ freed_calls free_data log xs)
      × ((b : Ptr) → s'.cell b ≡ (if has b xs then none else c b))
unfolding destroy
destroy-Chain zero fd c log ch fuel = absurd (omega arith)
destroy-Chain (suc f) fd c log done fuel =
    (record { root = null; cell = c; calls = log }, refl, refl, no_calls fd log, λ b. refl)
destroy-Chain (suc f) fd c log {p} (link {n} {d} {xs} nn at own rest) fuel =
    let log' : List ℕ = if fd then log ++ d ∷ [] else log in
    let s : Store = record { root = p; cell = c; calls = log } in
    let t : Store = record { root = p; cell = c; calls = log' } in
    let (s', run, gone, calls, cells) =
      destroy-Chain f fd (update c p none) log' (Chain-update p none rest own) (omega arith) in
    (
      s',
      rw (not_null nn, load-node s nn at, free-node t nn at) run,
      gone,
      calls ∙ more_calls fd log p d xs,
      λ b. cells b ∙ ground arith,
    )

-- `ac_slist_destroy` frees exactly the nodes of the list, each once, passes each datum to
-- `free_data` in order if one is given, and leaves the list variable NULL.
pub destroy_lem :
    (s : Store) (fuel : ℕ) (free_data : Bool) {xs : Nodes}
    → Holds s xs
    → length xs < fuel
    → (s' : Store) × (destroy fuel free_data s ≡ some (tt, s'))
      × (s'.root ≡ null)
      × (s'.calls ≡ freed_calls free_data s.calls xs)
      × ((b : Ptr) → s'.cell b ≡ (if has b xs then none else s.cell b))
destroy_lem s fuel free_data held enough = destroy-Chain fuel free_data s.cell s.calls held enough
