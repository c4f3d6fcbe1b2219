-- ===== src/Slist.antt =====
-- src/ac_slist.c: singly linked lists on an explicit heap.
--
-- A list variable of the caller, `ac_slist_t *list`, is the `root` of the store; `&list` is the
-- location `Loc.root`, and `&p->next` is `Loc.next_of p`. What `malloc` returns is an argument. A run
-- also returns `none` when its fuel is spent. A position is a `long`.
pub mod Chain
pub mod Read
pub mod Add
pub mod Reverse
pub mod Remove
pub mod Tests
use libac.Heap
use libac.Heap.{
  Ptr, null, update, pure, and_then, ◌>>=◌, ◌>>◌, load, poke, free, get_root, set_root, call,
  call_if, out_of_fuel, Loc, next_of, rounds, is_position,
}
use libac.Prelude.Int.{ℤ}
use libac.Prelude.{
  ℕ, zero, suc, ◌+◌, ◌≡◌, Bool, true, false, Option, none, some, List, [], ◌∷◌, ◌++◌, ◌==◌,
  if◌then◌else◌, ltb,
}

-- `ac_slist_t`
pub record Node : Type 0 where
  pub item : ℕ
  pub next : Ptr

abbrev pub node : ℕ → Ptr → Node
node d q = record { item = d; next = q }

abbrev pub Cells : Type 0
Cells = Ptr → Option Node

abbrev pub Store : Type 0
Store = Heap.Store Node

abbrev pub M : Type 0 → Type 0
M A = Heap.M Node A

-- `p->next = q`
unfoldable pub set_next : Ptr → Ptr → M (Unit {0})
unfolding load
set_next p q = do n ← load p; poke p (some (node n.item q))

-- `ac_slist_last`
unfoldable pub last : ℕ → Ptr → M Ptr
last zero list = out_of_fuel
last (suc f) list = do n ← load list; if n.next == null then pure list else last f n.next

-- `ac_slist_len`
unfoldable pub len_from : ℕ → Ptr → ℕ → M ℕ
len_from zero list len = out_of_fuel
len_from (suc f) list len =
    if list == null then pure len else do n ← load list; len_from f n.next (len + 1)

unfoldable pub len : ℕ → Ptr → M ℕ
unfolding len_from
len fuel list = len_from fuel list 0

-- `ac_slist_add`
unfoldable pub add : ℕ → Ptr → ℕ → M (Unit {0})
unfolding last set_next
add fuel new item = do
  poke new (some (node item null))
  list ← get_root
  if list == null then set_root new else do end ← last fuel list; set_next end new

-- `ac_slist_preadd`
unfoldable pub preadd : Ptr → ℕ → M (Unit {0})
preadd new item = do list ← get_root; poke new (some (node item list)); set_root new

-- `ac_slist_find` is `find_custom` with the test `list->data == data`.
unfoldable pub find_custom : (ℕ → Bool) → ℕ → Ptr → M Ptr
find_custom found zero list = out_of_fuel
find_custom found (suc f) list =
    if list == null
    then pure null
    else do n ← load list; if found n.item then pure list else find_custom found f n.next

unfoldable pub find : ℕ → ℕ → Ptr → M Ptr
unfolding find_custom
find fuel item list = find_custom (λ d. d == item) fuel list

-- The walk of `ac_slist_nth_data`, `n` steps of it left
unfoldable pub nth_from : ℕ → Ptr → M (Option ℕ)
unfolding load
nth_from zero list = do n ← load list; pure (some n.item)
nth_from (suc i) list = do n ← load list; if n.next == null then pure none else nth_from i n.next

-- `ac_slist_nth_data`
unfoldable pub nth_data : Ptr → ℤ → M (Option ℕ)
unfolding nth_from
nth_data list n = if list == null then pure none else nth_from (rounds n) list

-- `ac_slist_foreach`
unfoldable pub foreach : ℕ → Ptr → M (Unit {0})
foreach zero list = out_of_fuel
foreach (suc f) list =
    if list == null then pure tt else do n ← load list; call n.item; foreach f n.next

-- `ac_slist_reverse`
unfoldable pub reverse_from : ℕ → Ptr → M (Unit {0})
reverse_from zero prev = out_of_fuel
reverse_from (suc f) prev = do
  list ← get_root
  if list == null
      then set_root prev
      else do n ← load list; set_next list prev; set_root n.next; reverse_from f list

unfoldable pub reverse : ℕ → M (Unit {0})
unfolding reverse_from
reverse fuel = reverse_from fuel null

-- `ac_slist_destroy`
unfoldable pub destroy : ℕ → Bool → M (Unit {0})
destroy zero free_data = out_of_fuel
destroy (suc f) free_data = do
  list ← get_root
  if list == null then pure tt else do
    n ← load list
    call_if free_data n.item
    free list
    set_root n.next
    destroy f free_data

-- `*pp`
unfoldable pub get_loc : Loc → M Ptr
unfolding load
get_loc Loc.root = get_root
get_loc (next_of p) = do n ← load p; pure n.next

-- `*pp = q`
unfoldable pub set_loc : Loc → Ptr → M (Unit {0})
unfolding set_next
set_loc Loc.root q = set_root q
set_loc (next_of p) q = set_next p q

-- The body of the `if` that the three removals share
unfoldable pub unlink : Bool → Loc → Ptr → Node → M Bool
unfolding set_loc free
unlink free_data pp p n = do set_loc pp n.next; call_if free_data n.item; free p; pure true

-- Their loop. `found i d` is the test at the `i`-th node, of data `d`.
unfoldable pub remove_loop : (ℕ → ℕ → Bool) → Bool → ℕ → ℕ → Loc → M Bool
remove_loop found free_data zero i pp = out_of_fuel
remove_loop found free_data (suc f) i pp = do
  p ← get_loc pp
  if p == null then pure false else do
    n ← load p
    if found i n.item
        then unlink free_data pp p n
        else remove_loop found free_data f (i + 1) (next_of p)

-- `ac_slist_remove`
unfoldable pub remove : ℕ → ℕ → Bool → M Bool
remove fuel item free_data = remove_loop (λ i d. d == item) free_data fuel 0 Loc.root

-- `ac_slist_remove_nth`
unfoldable pub remove_nth : ℕ → ℤ → Bool → M Bool
remove_nth fuel n free_data = remove_loop (λ i d. is_position n i) free_data fuel 0 Loc.root

-- `ac_slist_remove_custom`; `found d` says that `compar(d, data)` is 0.
unfoldable pub remove_custom : ℕ → (ℕ → Bool) → Bool → M Bool
remove_custom fuel found free_data = remove_loop (λ i d. found d) free_data fuel 0 Loc.root
