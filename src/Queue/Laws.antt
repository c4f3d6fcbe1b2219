-- ===== src/Queue/Laws.antt =====
-- `ac_queue_push`, `ac_queue_pop` and `ac_queue_foreach` over the list of the items.
use libac.Heap.{Ptr, free-node, load-node, not_null, null, update}
use libac.Heap.Nodes.{Nodes, datum, has, last_addr}
use libac.Prelude.{
  ℕ, ◌+◌, ◌-◌, ◌%◌, ◌^◌, ◌<◌, ◌≡◌, refl, sym, ap, ◌∙◌, ◌≢◌, true, false, Option, none, some, List,
  [], ◌∷◌, ◌++◌, map, arith, length, length-append, ◌==◌,
}
use libac.Prelude.Int.{ℤ, pos, negsuc}
use mathlib.Core.List.{append-nil}
use libac.Slist
use libac.Slist.{Node, node, Cells, Store, set_next}
use libac.Slist.Chain.{Chain, done, link, Holds, Chain-update, has_of_none, set_next-node}
use libac.Slist.Add.{extend}
use libac.Queue.{Queue, link_new, push, pop_node, pop, nr_items, foreach}

-- The address of the last node; any address if there is none.
abbrev pub TailOf : Ptr → Nodes → Type 0
TailOf t [] = Unit
TailOf t ((a, d) ∷ xs) = t ≡ last_addr a xs

pub record IsQueue (q : Queue) (xs : Nodes) : Type 0 where
  pub chain : Holds q.store xs
  pub tail_last : TailOf q.tail xs
  pub counted : q.items ≡ length xs % 2 ^ 32

last_addr-append : (a b : Ptr) (d : ℕ) (xs : Nodes) → last_addr a (xs ++ (b, d) ∷ []) ≡ b
last_addr-append a b d [] = refl
last_addr-append a b d ((c, e) ∷ xs) = last_addr-append c b d xs

TailOf-append : (t a : Ptr) (d : ℕ) (xs : Nodes) → t ≡ a → TailOf t (xs ++ (a, d) ∷ [])
TailOf-append t a d [] e = e
TailOf-append t a d ((b, x) ∷ xs) e = e ∙ sym (last_addr-append b a d xs)

TailOf-rest :
    {c : Cells} {p : Ptr} {xs : Nodes} (t a : Ptr)
    → Chain c null p xs
    → t ≡ last_addr a xs
    → TailOf t xs
TailOf-rest t a done e = tt
TailOf-rest t a (link nn at own rest) e = e

abbrev store_at : Ptr → Cells → List ℕ → Store
store_at p c log = record { root = p; cell = c; calls = log }

abbrev queue_at : Ptr → Cells → List ℕ → Ptr → ℕ → Queue
queue_at p c log t n = record { store = store_at p c log; tail = t; items = n }

abbrev pub Pushes : List ℕ → Ptr → ℕ → Nodes → Option (ℤ × Option Queue) → Type 0
Pushes log new item xs run =
    (q' : Queue) × (run ≡ some (pos 0, some q'))
    × IsQueue q' (xs ++ (new, item) ∷ [])
    × (q'.store.calls ≡ log)

push-Chain :
    (c : Cells) (log : List ℕ) (t n : ℕ) (new : Ptr) (item : ℕ) {p : Ptr} {xs : Nodes}
    → new ≢ null
    → c new ≡ none
    → Chain c null p xs
    → TailOf t xs
    → n ≡ length xs % 2 ^ 32
    → Pushes log new item xs (push new item (some (queue_at p c log t n)))
unfolding push link_new
push-Chain c log t n new item new_nn unused done tail counted = (
  queue_at new (update c new (some (node item null))) log new ((n + 1) % 2 ^ 32),
  refl,
  record { chain = link new_nn (ground arith) refl done; tail_last = refl; counted = omega arith },
  refl,
)
push-Chain c log t n new item {p} new_nn unused (link {n = m} {d} {xs} nn at own rest) tail
      counted =
    let c1 : Cells = update c new (some (node item null)) in
    let out : has new ((p, d) ∷ xs) ≡ false = has_of_none new unused (link nn at own rest) in
    let at' : c1 p ≡ some (node d m) = ground arith in
    let rest' : Chain c1 null m xs = Chain-update new (some (node item null)) rest (ground arith) in
    let (dl, l_nn, l_at, l_in, ch) =
      extend c1 new item new_nn (ground arith) nn at' own out rest' in
    (
      queue_at p (update c1 (last_addr p xs) (some (node dl new))) log new ((n + 1) % 2 ^ 32),
      rw (push, link_new, not_null nn, tail, set_next-node (store_at p c1 log) new l_nn l_at),
      record {
        chain = ch;
        tail_last = TailOf-append new new item ((p, d) ∷ xs) refl;
        counted = omega (arith, length-append xs ((new, item) ∷ []));
      },
      refl,
    )

-- `ac_queue_push` onto a valid queue returns 0, puts the item behind the others and counts it; onto
-- a NULL queue it returns -1.
pub push-IsQueue :
    (q : Queue) (new : Ptr) (item : ℕ) {xs : Nodes}
    → IsQueue q xs
    → new ≢ null
    → q.store.cell new ≡ none
    → Pushes q.store.calls new item xs (push new item (some q))
      × (push new item none ≡ some (negsuc 0, none))
unfolding push
push-IsQueue q new item v nn unused = (
  push-Chain q.store.cell q.store.calls q.tail q.items new item nn unused v.chain v.tail_last
      v.counted,
  refl,
)

-- What `ac_queue_pop` of the queue `xs` gives and leaves.
abbrev pub Pops : Queue → Nodes → Option (Option ℕ × Option Queue) → Type 0
Pops q [] run = run ≡ some (none, some q)
Pops q ((a, d) ∷ xs) run =
    (q' : Queue) × (run ≡ some (some d, some q'))
    × IsQueue q' xs
    × (q'.store.cell a ≡ none)
    × (q'.store.calls ≡ q.store.calls)

pop-Chain :
    (c : Cells) (log : List ℕ) (t n : ℕ) {p : Ptr} {xs : Nodes}
    → Chain c null p xs
    → TailOf t xs
    → n ≡ length xs % 2 ^ 32
    → Pops (queue_at p c log t n) xs (pop (some (queue_at p c log t n)))
unfolding pop
pop-Chain c log t n done tail counted = refl
pop-Chain c log t n {p} (link {n = m} {d} {xs} nn at own rest) tail counted = (
  queue_at m (update c p none) log t ((n + 2 ^ 32 - 1) % 2 ^ 32),
  rw (
    not_null nn,
    load-node (store_at p c log) nn at,
    free-node (store_at m c log) nn at,
    pop,
    pop_node,
  ),
  record {
    chain = Chain-update p none rest own;
    tail_last = TailOf-rest t p rest tail;
    counted = omega arith;
  },
  ground arith,
  refl,
)

-- `ac_queue_pop` of a valid queue gives the item that was pushed first, frees its node and leaves the
-- others; of an empty queue it returns NULL and changes nothing.
pub pop-IsQueue : (q : Queue) {xs : Nodes} → IsQueue q xs → Pops q xs (pop (some q))
pop-IsQueue q v = pop-Chain q.store.cell q.store.calls q.tail q.items v.chain v.tail_last v.counted

nonempty :
    (x : Ptr × ℕ) (xs : Nodes) (n : ℕ)
    → n ≡ length (x ∷ xs) % 2 ^ 32
    → length (x ∷ xs) < 2 ^ 32
    → (n == 0) ≡ false
nonempty x xs n counted small = ground (arith, counted, small)

-- A queue of fewer than 2 ^ 32 items: `ac_queue_nr_items` is their number, and `ac_queue_foreach`
-- calls the action on each, first in first, and changes nothing.
pub foreach-items :
    (q : Queue) (fuel : ℕ) {xs : Nodes}
    → IsQueue q xs
    → length xs < fuel
    → length xs < 2 ^ 32
    → (nr_items (some q) ≡ length xs)
      × (foreach fuel (some q)
          ≡ some (
              some
                (record q { store = record (q.store) { calls = q.store.calls ++ map datum xs } })))
unfolding nr_items foreach
foreach-items q fuel {xs} v enough small = (omega (arith, v.counted), visit xs v enough small)
  where
    visit :
        (xs : Nodes)
        → IsQueue q xs
        → length xs < fuel
        → length xs < 2 ^ 32
        → foreach fuel (some q)
          ≡ some (
              some
                (record q { store = record (q.store) { calls = q.store.calls ++ map datum xs } }))
    visit [] v enough small =
        let z : (q.items == 0) ≡ true = ground (arith, v.counted) in
        rw (foreach, z)
          (ap (λ l. some (some (record q { store = record (q.store) { calls = l } })))
            (sym (append-nil q.store.calls)))
    visit (x ∷ xs) v enough small =
        let z : (q.items == 0) ≡ false = nonempty x xs q.items v.counted small in
        rw (foreach, z, Slist.Read.foreach-calls q.store fuel v.chain enough)
