-- ===== src/Heap.antt =====
-- The heap that src/ac_slist.c and src/ac_list.c work on, for any type of node.
--
-- An address holds a node or nothing. `root` is the caller's list variable. A run returns `none` at an
-- access to an address that holds no node. `calls` lists the data that were passed to the caller's
-- function, `free_data` or `action`, in order.
pub mod Nodes
pub mod Erase
use libac.Prelude.Int.{ℤ, pos, negsuc}
use libac.Prelude.{
  ℕ, ◌≡◌, ◌≢◌, Bool, false, Option, none, some, List, [], ◌∷◌, ◌++◌, ◌==◌, if◌then◌else◌, arith,
}

abbrev pub Ptr : Type 0
Ptr = ℕ

abbrev pub null : Ptr
null = 0

module _ {N : Type 0} where
  abbrev pub update : (Ptr → Option N) → Ptr → Option N → Ptr → Option N
  update c a v b = if b == a then v else c b

-- What a caller of the list functions sees of the memory
pub record Store (N : Type 0) : Type 0 where
  pub root : Ptr
  pub cell : Ptr → Option N
  pub calls : List ℕ

abbrev pub M : Type 0 → Type 0 → Type 0
M N A = Store N → Option (A × Store N)

abbrev pub pure : {N A : Type 0} → A → M N A
pure a s = some (a, s)

abbrev pub and_then : {N A B : Type 0} → Option (A × Store N) → (A → M N B) → Option (B × Store N)
and_then none f = none
and_then (some (a, s)) f = f a s

infixl 5 ◌>>=◌ ◌>>◌
abbrev pub ◌>>=◌ : {N A B : Type 0} → M N A → (A → M N B) → M N B
◌>>=◌ m f s = and_then (m s) f

abbrev pub ◌>>◌ : {N B : Type 0} → M N (Unit {0}) → M N B → M N B
m >> k = m >>= λ _. k

-- `*p`
unfoldable pub load : {N : Type 0} → Ptr → M N N
load p s = if p == null then none else elim (s.cell p) [ none ↦ none | some n ↦ some (n, s) ]

-- The raw write: `some n` fills the address, `none` gives it back.
abbrev pub poke : {N : Type 0} → Ptr → Option N → M N (Unit {0})
poke p v s = some (tt, record s { cell = update s.cell p v })

unfoldable pub free : {N : Type 0} → Ptr → M N (Unit {0})
unfolding load
free p = do _ ← load p; poke p none

-- The list variable, read and written.
abbrev pub get_root : {N : Type 0} → M N Ptr
get_root s = some (s.root, s)

abbrev pub set_root : {N : Type 0} → Ptr → M N (Unit {0})
set_root p s = some (tt, record s { root = p })

-- `action(data)`, and `if (free_data) free_data(data)`
abbrev pub call : {N : Type 0} → ℕ → M N (Unit {0})
call d s = some (tt, record s { calls = s.calls ++ d ∷ [] })

abbrev pub call_if : {N : Type 0} → Bool → ℕ → M N (Unit {0})
call_if b d s = some (tt, record s { calls = if b then s.calls ++ d ∷ [] else s.calls })

abbrev pub out_of_fuel : {N A : Type 0} → M N A
out_of_fuel s = none

-- A place that holds a pointer: the list variable, or the `next` of a node.
pub data Loc : Type 0 where
  root : Loc
  next_of : Ptr → Loc

pub not_null : {a : Ptr} → a ≢ null → (a == null) ≡ false
not_null nn = ground arith

-- `*p` at a node
pub load-node :
    {N : Type 0} (s : Store N) {p : Ptr} {n : N}
    → p ≢ null
    → s.cell p ≡ some n
    → load p s ≡ some (n, s)
unfolding load
load-node s nn at = ground arith

pub free-node :
    {N : Type 0} (s : Store N) {p : Ptr} {n : N}
    → p ≢ null
    → s.cell p ≡ some n
    → free p s ≡ some (tt, record s { cell = update s.cell p none })
unfolding free
free-node s nn at = ground arith

-- A position is a `long`: the rounds of `for (i = 0; i < n; i++)`, and `i == n`.
abbrev pub rounds : ℤ → ℕ
rounds (pos n) = n
rounds (negsuc n) = 0

abbrev pub is_position : ℤ → ℕ → Bool
is_position (pos n) i = i == n
is_position (negsuc n) i = false
