-- ===== src/Dlist/Reverse.antt =====
-- `ac_list_reverse` and `ac_list_destroy`.
use mathlib.Core.List
use mathlib.Core.List.{reverse_aux}
use libac.Heap.{Ptr, free-node, load-node, not_null, null, update}
use libac.Heap.Nodes.{Nodes, SameOutside, freed_calls, has, more_calls, no_calls}
use libac.Prelude.{
  ℕ, zero, suc, ◌<◌, ◌≡◌, ◌≢◌, refl, ◌∙◌, Bool, true, false, Option, none, some, List, [], ◌∷◌,
  ◌++◌, arith, length, ◌==◌, if◌then◌else◌,
}
use libac.Dlist.{node, Cells, Store, reverse_from, reverse, destroy}
use libac.Dlist.Chain.{
  Forward, stop, step, Chain, done, link, Holds, Chain-update, Forward-update, set_next-node,
  set_prev-node,
}

abbrev pub Reversed : Store → Nodes → Nodes → Option (Unit {0} × Store) → Type 0
Reversed s xs ys run =
    (s' : Store) × (run ≡ some (tt, s'))
    × Holds s' (reverse_aux xs ys)
    × (s'.calls ≡ s.calls)
    × ((b : Ptr) → has b xs ≡ false → has b ys ≡ false → s'.cell b ≡ s.cell b)

-- A turned node
pub turned : Cells → Ptr → ℕ → Ptr → Ptr → Cells
turned c p d b n = update (update c p (some (node d b b))) p (some (node d n b))

turned-Chain :
    {c : Cells} {a q : Ptr} {xs : Nodes} (p : Ptr) (d : ℕ) (b n : Ptr)
    → Chain c a q xs
    → has p xs ≡ false
    → Chain (turned c p d b n) a q xs
unfolding turned
turned-Chain p d b n ch out =
    Chain-update p (some (node d n b)) (Chain-update p (some (node d b b)) ch out) out

pub turned_lem :
    (c : Cells) (p : Ptr) (d : ℕ) (b n a : Ptr)
    → turned c p d b n a ≡ (if a == p then some (node d n b) else c a)
unfolding turned
turned_lem c p d b n a = ground arith

-- One round of the loop
pub reverse_from-step :
    (f : ℕ) (c : Cells) (log : List ℕ) (l : Ptr) {p b n : Ptr} {d : ℕ}
    → p ≢ null
    → c p ≡ some (node d b n)
    → reverse_from (suc f) l (record { root = p; cell = c; calls = log })
      ≡ reverse_from f p (record { root = n; cell = turned c p d b n; calls = log })
unfolding reverse_from turned
reverse_from-step f c log l {p} {b} {n} {d} nn at =
    let s : Store = record { root = p; cell = c; calls = log } in
    let s1 : Store = record { root = n; cell = c; calls = log } in
    let s2 : Store = record { root = n; cell = update c p (some (node d b b)); calls = log } in
    rw
      (
        not_null nn,
        load-node s nn at,
        set_next-node s1 b nn at,
        set_prev-node s2 {n = node d b b} n nn (ground arith),
      )
      refl

pub reverse_from-null :
    (f : ℕ) (c : Cells) (log : List ℕ) (b : Ptr)
    → reverse_from (suc f) b (record { root = null; cell = c; calls = log })
      ≡ some (tt, record { root = b; cell = c; calls = log })
unfolding reverse_from
reverse_from-null f c log b = refl

-- The nodes still to be turned hang from the list variable, those turned from `last`; each of the two
-- parts has the head of the other before its own.
reverse_from-Reversed :
    (f : ℕ) (c : Cells) (log : List ℕ) {b p : Ptr} {xs ys : Nodes}
    → Chain c b p xs
    → Chain c p b ys
    → ((a : Ptr) → has a xs ≡ true → has a ys ≡ false)
    → length xs < f
    → Reversed
        (record { root = p; cell = c; calls = log })
        xs
        ys
        (reverse_from f b (record { root = p; cell = c; calls = log }))
reverse_from-Reversed zero c log ch back apart fuel = absurd (omega arith)
reverse_from-Reversed (suc f) c log {b} done back apart fuel = (
  record { root = b; cell = c; calls = log },
  reverse_from-null f c log b,
  back,
  refl,
  λ a out out'. refl,
)
reverse_from-Reversed (suc f) c log {b} {p} {ys} (link {n} {d} {xs} nn at own rest) back apart
      fuel =
    let c' : Cells = turned c p d b n in
    let out : has p ys ≡ false = apart p (ground arith) in
    let (s', run, held, same_calls, same) =
      reverse_from-Reversed f c' log {b = p} {p = n} {ys = (p, d) ∷ ys}
        (turned-Chain p d b n rest own)
        (link nn (turned_lem c p d b n p ∙ ground arith) out (turned-Chain p d b n back out))
        (λ a i. ground (arith, apart a)) (omega arith) in
    (
      s',
      reverse_from-step f c log b nn at ∙ run,
      held,
      same_calls,
      λ a far far'. same a (ground arith) (ground arith) ∙ turned_lem c p d b n a ∙ ground arith,
    )

-- `ac_list_reverse` leaves the same nodes in reverse order, linked both ways, makes no call and writes
-- nowhere else.
pub reverse_both_ways :
    (s : Store) (fuel : ℕ) {xs : Nodes}
    → Holds s xs
    → length xs < fuel
    → (s' : Store) × (reverse fuel s ≡ some (tt, s'))
      × Holds s' (List.reverse xs)
      × (s'.calls ≡ s.calls)
      × SameOutside xs s.cell s'.cell
unfolding reverse
reverse_both_ways s fuel held enough =
    let (s', run, held', calls, same) =
      reverse_from-Reversed fuel s.cell s.calls held done (λ a i. refl) enough in
    (s', run, held', calls, λ b far. same b far refl)

destroy-Forward :
    (f : ℕ) (free_data : Bool) (c : Cells) (log : List ℕ) {p : Ptr} {xs : Nodes}
    → Forward c p xs
    → length xs < f
    → (s' : Store) × (destroy f free_data (record { root = p; cell = c; calls = log })
        ≡ some (tt, s'))
      × (s'.root ≡ null)
      × (s'.calls ≡ freed_calls free_data log xs)
      × ((b : Ptr) → s'.cell b ≡ (if has b xs then none else c b))
unfolding destroy
destroy-Forward zero fd c log ch fuel = absurd (omega arith)
destroy-Forward (suc f) fd c log stop fuel =
    (record { root = null; cell = c; calls = log }, refl, refl, no_calls fd log, λ b. refl)
destroy-Forward (suc f) fd c log {p} (step {n} {d} {xs} nn at own rest) fuel =
    let log' : List ℕ = if fd then log ++ d ∷ [] else log in
    let s : Store = record { root = p; cell = c; calls = log } in
    let t : Store = record { root = p; cell = c; calls = log' } in
    let (s', run, gone, calls, cells) =
      destroy-Forward f fd (update c p none) log' (Forward-update p none rest own) (omega arith) in
    (
      s',
      rw (not_null nn, load-node s nn at, free-node t nn at) run,
      gone,
      calls ∙ more_calls fd log p d xs,
      λ b. cells b ∙ ground arith,
    )

-- Where the `next` pointers lead through fewer than `fuel` nodes to NULL, whatever `prev` holds,
-- `ac_list_destroy` frees exactly those nodes, each once, passes each datum to
-- `free_data` in order if one is given, and leaves the list variable NULL.
pub destroy_along :
    (s : Store) (fuel : ℕ) (free_data : Bool) {xs : Nodes}
    → Forward s.cell s.root xs
    → length xs < fuel
    → (s' : Store) × (destroy fuel free_data s ≡ some (tt, s'))
      × (s'.root ≡ null)
      × (s'.calls ≡ freed_calls free_data s.calls xs)
      × ((b : Ptr) → s'.cell b ≡ (if has b xs then none else s.cell b))
destroy_along s fuel free_data held enough =
    destroy-Forward fuel free_data s.cell s.calls held enough
