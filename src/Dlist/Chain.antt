-- ===== src/Dlist/Chain.antt =====
-- What a doubly linked list on the heap stands for: the addresses and data of its nodes, in order.
use libac.Heap.{Ptr, null, update}
use libac.Heap.Nodes.{Nodes, has}
use libac.Prelude.{ℕ, ◌≡◌, refl, ◌≢◌, false, Option, none, some, [], ◌∷◌, arith}
use libac.Dlist.{Node, node, Cells, Store, set_next, set_prev}

-- From an address the `next` pointers lead through the given nodes, all different, to NULL.
pub data Forward (c : Cells) : Ptr → Nodes → Type 0 where
  stop : Forward c null []
  step :
      {a b n : Ptr} {d : ℕ} {xs : Nodes}
      → a ≢ null
      → c a ≡ some (node d b n)
      → has a xs ≡ false
      → Forward c n xs
      → Forward c a ((a, d) ∷ xs)

-- And each node's `prev` is the node before it, that of the first a given address.
pub data Chain (c : Cells) : Ptr → Ptr → Nodes → Type 0 where
  done : {b : Ptr} → Chain c b null []
  link :
      {a b n : Ptr} {d : ℕ} {xs : Nodes}
      → a ≢ null
      → c a ≡ some (node d b n)
      → has a xs ≡ false
      → Chain c a n xs
      → Chain c b a ((a, d) ∷ xs)

-- The list variable holds the list `xs`, linked both ways.
abbrev pub Holds : Store → Nodes → Type 0
Holds s xs = Chain s.cell null s.root xs

pub Chain-Forward : {c : Cells} {b p : Ptr} {xs : Nodes} → Chain c b p xs → Forward c p xs
Chain-Forward done = stop
Chain-Forward (link nn at new rest) = step nn at new (Chain-Forward rest)

pub Chain-update :
    {c : Cells} {b p : Ptr} {xs : Nodes} (a : Ptr) (v : Option Node)
    → Chain c b p xs
    → has a xs ≡ false
    → Chain (update c a v) b p xs
Chain-update a v done out = done
Chain-update a v (link nn at new rest) out =
    link nn (ground arith) new (Chain-update a v rest (ground arith))

pub Forward-update :
    {c : Cells} {p : Ptr} {xs : Nodes} (a : Ptr) (v : Option Node)
    → Forward c p xs
    → has a xs ≡ false
    → Forward (update c a v) p xs
Forward-update a v stop out = stop
Forward-update a v (step {b} nn at new rest) out =
    step {b = b} nn (ground arith) new (Forward-update a v rest (ground arith))

-- An unused address is not in a list.
pub has_of_none :
    {c : Cells} {p : Ptr} {xs : Nodes} (a : Ptr) → c a ≡ none → Forward c p xs → has a xs ≡ false
has_of_none a unused stop = refl
has_of_none a unused (step nn at new rest) = ground (arith, has_of_none a unused rest)

pub set_next-node :
    (s : Store) {p : Ptr} {n : Node} (q : Ptr)
    → p ≢ null
    → s.cell p ≡ some n
    → set_next p q s ≡ some (tt, record s { cell = update s.cell p (some (node n.item n.prev q)) })
unfolding set_next
set_next-node s q nn at = ground arith

pub set_prev-node :
    (s : Store) {p : Ptr} {n : Node} (q : Ptr)
    → p ≢ null
    → s.cell p ≡ some n
    → set_prev p q s ≡ some (tt, record s { cell = update s.cell p (some (node n.item q n.next)) })
unfolding set_prev
set_prev-node s q nn at = ground arith
