-- ===== src/Dlist.antt =====
-- src/ac_list.c: doubly linked lists on an explicit heap.
--
-- A list variable of the caller, `ac_list_t *list`, is the `root` of the store; `&list` is the
-- location `Loc.root`, and `&p->next` is `Loc.next_of p`. What `malloc` returns is an argument. A run
-- also returns `none` when its fuel is spent. A position is a `long`.
pub mod Chain
pub mod Read
pub mod Add
pub mod Preadd
pub mod Reverse
pub mod Unlink
pub mod Remove
mod Tests
use libac.Heap
use libac.Heap.{
  Ptr, null, update, pure, and_then, ◌>>=◌, ◌>>◌, load, poke, free, get_root, set_root, call,
  call_if, out_of_fuel, Loc, next_of, rounds, is_position,
}
use libac.Prelude.Int.{ℤ}
use libac.Prelude.{
  ℕ, zero, suc, ◌+◌, ◌≡◌, Bool, true, false, Option, none, some, ◌==◌, if◌then◌else◌,
}

-- `ac_list_t`
pub record Node : Type 0 where
  pub item : ℕ
  pub prev : Ptr
  pub next : Ptr

abbrev pub node : ℕ → Ptr → Ptr → Node
node d b n = record { item = d; prev = b; next = n }

abbrev pub Cells : Type 0
Cells = Ptr → Option Node

abbrev pub Store : Type 0
Store = Heap.Store Node

abbrev pub M : Type 0 → Type 0
M A = Heap.M Node A

-- `p->next = q`
unfoldable pub set_next : Ptr → Ptr → M (Unit {0})
unfolding load
set_next p q = do n ← load p; poke p (some (node n.item n.prev q))

-- `p->prev = q`
unfoldable pub set_prev : Ptr → Ptr → M (Unit {0})
unfolding load
set_prev p q = do n ← load p; poke p (some (node n.item q n.next))

-- `ac_list_last`
unfoldable pub last : ℕ → Ptr → M Ptr
last zero list = out_of_fuel
last (suc f) list = do n ← load list; if n.next == null then pure list else last f n.next

-- `ac_list_len`
unfoldable pub len_from : ℕ → Ptr → ℕ → M ℕ
len_from zero list len = out_of_fuel
len_from (suc f) list len =
    if list == null then pure len else do n ← load list; len_from f n.next (len + 1)

unfoldable pub len : ℕ → Ptr → M ℕ
unfolding len_from
len fuel list = len_from fuel list 0

-- `ac_list_add`
unfoldable pub add : ℕ → Ptr → ℕ → M (Unit {0})
unfolding last set_next set_prev
add fuel new item = do
  poke new (some (node item null null))
  list ← get_root
  if list == null then set_root new else do end ← last fuel list; set_next end new; set_prev new end

-- `ac_list_preadd`
unfoldable pub preadd : Ptr → ℕ → M (Unit {0})
preadd new item = do list ← get_root; poke new (some (node item null list)); set_root new

-- `ac_list_find_custom`; `found d` says that `compar(d, data)` is 0.
unfoldable pub find_custom : (ℕ → Bool) → ℕ → Ptr → M Ptr
find_custom found zero list = out_of_fuel
find_custom found (suc f) list =
    if list == null
    then pure null
    else do n ← load list; if found n.item then pure list else find_custom found f n.next

-- `ac_list_find` is `find_custom` with the test `list->data == data`.
unfoldable pub find : ℕ → ℕ → Ptr → M Ptr
unfolding find_custom
find fuel item list = find_custom (λ d. d == item) fuel list

-- The walk of `ac_list_nth_data`, `n` steps of it left
unfoldable pub nth_from : ℕ → Ptr → M (Option ℕ)
unfolding load
nth_from zero list = do n ← load list; pure (some n.item)
nth_from (suc i) list = do n ← load list; if n.next == null then pure none else nth_from i n.next

-- `ac_list_nth_data`
unfoldable pub nth_data : Ptr → ℤ → M (Option ℕ)
unfolding nth_from
nth_data list n = if list == null then pure none else nth_from (rounds n) list

-- `ac_list_foreach`
unfoldable pub foreach : ℕ → Ptr → M (Unit {0})
foreach zero list = out_of_fuel
foreach (suc f) list =
    if list == null then pure tt else do n ← load list; call n.item; foreach f n.next

-- `ac_list_rev_foreach`, the loop and the whole
unfoldable pub walk_back : ℕ → Ptr → M (Unit {0})
walk_back zero p = out_of_fuel
walk_back (suc f) p = if p == null then pure tt else do n ← load p; call n.item; walk_back f n.prev

unfoldable pub rev_foreach : ℕ → Ptr → M (Unit {0})
unfolding last walk_back
rev_foreach fuel list = if list == null then pure tt else do p ← last fuel list; walk_back fuel p

-- `ac_list_reverse`
unfoldable pub reverse_from : ℕ → Ptr → M (Unit {0})
reverse_from zero last = out_of_fuel
reverse_from (suc f) last = do
  list ← get_root
  if list == null then set_root last else do
    n ← load list
    set_root n.next
    set_next list n.prev
    set_prev list n.next
    reverse_from f list

unfoldable pub reverse : ℕ → M (Unit {0})
unfolding reverse_from
reverse fuel = reverse_from fuel null

-- `ac_list_destroy`
unfoldable pub destroy : ℕ → Bool → M (Unit {0})
destroy zero free_data = out_of_fuel
destroy (suc f) free_data = do
  list ← get_root
  if list == null then pure tt else do
    n ← load list
    call_if free_data n.item
    free list
    set_root n.next
    destroy f free_data

-- `*pp`
unfoldable pub get_loc : Loc → M Ptr
unfolding load
get_loc Loc.root = get_root
get_loc (next_of p) = do n ← load p; pure n.next

-- `*pp = q`
unfoldable pub set_loc : Loc → Ptr → M (Unit {0})
unfolding set_next
set_loc Loc.root q = set_root q
set_loc (next_of p) q = set_next p q

-- `if (*pp) (*pp)->prev = prev`
unfoldable pub relink : Loc → Ptr → M (Unit {0})
unfolding get_loc set_prev
relink pp prev = do q ← get_loc pp; if q == null then pure tt else set_prev q prev

-- The body of the `if` that the three removals share; `n` is what the node at `p` holds.
unfoldable pub unlink : Bool → Loc → Ptr → Node → M Bool
unfolding set_loc relink free
unlink free_data pp p n = do
  set_loc pp n.next
  relink pp n.prev
  call_if free_data n.item
  free p
  pure true

-- Their loop. `found i d` is the test at the `i`-th node, of data `d`.
unfoldable pub remove_loop : (ℕ → ℕ → Bool) → Bool → ℕ → ℕ → Loc → M Bool
remove_loop found free_data zero i pp = out_of_fuel
remove_loop found free_data (suc f) i pp = do
  p ← get_loc pp
  if p == null then pure false else do
    n ← load p
    if found i n.item
        then unlink free_data pp p n
        else remove_loop found free_data f (i + 1) (next_of p)

-- `ac_list_remove`
unfoldable pub remove : ℕ → ℕ → Bool → M Bool
remove fuel item free_data = remove_loop (λ i d. d == item) free_data fuel 0 Loc.root

-- `ac_list_remove_nth`
unfoldable pub remove_nth : ℕ → ℤ → Bool → M Bool
remove_nth fuel n free_data = remove_loop (λ i d. is_position n i) free_data fuel 0 Loc.root

-- `ac_list_remove_custom`; `found d` says that `compar(d, data)` is 0.
unfoldable pub remove_custom : ℕ → (ℕ → Bool) → Bool → M Bool
remove_custom fuel found free_data = remove_loop (λ i d. found d) free_data fuel 0 Loc.root
