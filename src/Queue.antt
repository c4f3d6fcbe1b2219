-- ===== src/Queue.antt =====
-- src/ac_queue.c: a FIFO queue over the nodes of ac_slist.c.
--
-- The store's `root` is the field `queue->queue`; `tail` and `items` are the other fields. A NULL
-- queue is `none`. `items` is a `u32`.
pub mod Laws
mod Tests
use libac.Heap.{Ptr, free, load, null, poke, update}
use libac.Prelude.{
  ℕ, zero, suc, ◌+◌, ◌-◌, ◌%◌, ◌^◌, ◌≡◌, Bool, true, false, Option, none, some, [], ◌==◌,
  if◌then◌else◌,
}
use libac.Prelude.Int.{ℤ, pos, negsuc}
use libac.Slist
use libac.Slist.{node, Store, set_next}

-- `ac_queue_t`
pub record Queue : Type 0 where
  pub store : Store
  pub tail : Ptr
  pub items : ℕ

-- `ac_queue_new`, on a heap
unfoldable pub new : Slist.Cells → Queue
new c = record { store = record { root = null; cell = c; calls = [] }; tail = null; items = 0 }

-- The link of a new node behind the others, `queue->tail->next = new` or `queue->queue = new`
unfoldable pub link_new : Queue → Ptr → Option Store
link_new q new =
    if q.store.root == null
    then some (record (q.store) { root = new })
    else elim (set_next q.tail new q.store) [ none ↦ none | some (u, s) ↦ some s ]

-- `ac_queue_push`; `new` is what `malloc` returns. The outer option is a fault.
unfoldable pub push : Ptr → ℕ → Option Queue → Option (ℤ × Option Queue)
unfolding link_new
push new item none = some (negsuc 0, none)
push new item (some q) =
    let s : Store = record (q.store) { cell = update q.store.cell new (some (node item null)) } in
    elim (link_new (record q { store = s }) new) [
      | none ↦ none
      | some s' ↦
          some (pos 0, some (record { store = s'; tail = new; items = (q.items + 1) % 2 ^ 32 }))
    ]

-- `ac_queue_pop` of a queue with a node `p`
unfoldable pub pop_node : Queue → Ptr → Option (Option ℕ × Option Queue)
pop_node q p = elim (load p q.store) [
  | none ↦ none
  | some (n, s) ↦ elim (free p (record s { root = n.next })) [
    | none ↦ none
    | some (u, s') ↦
        some (some n.item, some (record q { store = s'; items = (q.items + 2 ^ 32 - 1) % 2 ^ 32 }))
  ]
]

-- `ac_queue_pop`. The inner option is the item, `none` for NULL.
unfoldable pub pop : Option Queue → Option (Option ℕ × Option Queue)
unfolding pop_node
pop none = some (none, none)
pop (some q) = if q.store.root == null then some (none, some q) else pop_node q q.store.root

-- `ac_queue_nr_items`
unfoldable pub nr_items : Option Queue → ℕ
nr_items none = 0
nr_items (some q) = q.items

-- `ac_queue_foreach`
unfoldable pub foreach : ℕ → Option Queue → Option (Option Queue)
foreach fuel none = some none
foreach fuel (some q) =
    if q.items == 0 then some (some q) else elim (Slist.foreach fuel q.store.root q.store) [
      | none ↦ none
      | some (u, s) ↦ some (some (record q { store = s }))
    ]

-- `ac_queue_destroy`, down to the store that is left
unfoldable pub destroy : ℕ → Bool → Option Queue → Option (Option Store)
destroy fuel free_func none = some none
destroy fuel free_func (some q) = elim (Slist.destroy fuel free_func q.store) [
  | none ↦ none
  | some (u, s) ↦ some (some s)
]
