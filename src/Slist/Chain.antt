-- ===== src/Slist/Chain.antt =====
-- What a list on the heap stands for: the addresses and data of its nodes, in order.
use libac.Heap.{Ptr, null, update}
use libac.Heap.Nodes.{Nodes, has, has-append}
use libac.Prelude.{ℕ, ◌≡◌, refl, ◌∙◌, ◌≢◌, true, false, Option, none, some, [], ◌∷◌, ◌++◌, arith}
use libac.Slist.{Node, node, Cells, Store, set_next}

-- From an address the `next` pointers lead through the given nodes, all different, to `stop`.
pub data Chain (c : Cells) (stop : Ptr) : Ptr → Nodes → Type 0 where
  done : Chain c stop stop []
  link :
      {a n : Ptr} {d : ℕ} {xs : Nodes}
      → a ≢ null
      → c a ≡ some (node d n)
      → has a xs ≡ false
      → Chain c stop n xs
      → Chain c stop a ((a, d) ∷ xs)

-- The list variable holds the list `xs`.
abbrev pub Holds : Store → Nodes → Type 0
Holds s xs = Chain s.cell null s.root xs

pub Chain-frame :
    {c c' : Cells} {q p : Ptr} {xs : Nodes}
    → Chain c q p xs
    → ((b : Ptr) → has b xs ≡ true → c' b ≡ c b)
    → Chain c' q p xs
Chain-frame done same = done
Chain-frame (link {a} nn at new rest) same =
    link nn (same a (ground arith) ∙ at) new (Chain-frame rest λ b h. same b (ground arith))

pub Chain-update :
    {c : Cells} {p q : Ptr} {xs : Nodes} (a : Ptr) (v : Option Node)
    → Chain c q p xs
    → has a xs ≡ false
    → Chain (update c a v) q p xs
Chain-update a v ch out = Chain-frame ch λ b h. ground arith

-- An unused address is not in a list.
pub has_of_none :
    {c : Cells} {q p : Ptr} {xs : Nodes} (a : Ptr) → c a ≡ none → Chain c q p xs → has a xs ≡ false
has_of_none a unused done = refl
has_of_none a unused (link nn at new rest) = ground (arith, has_of_none a unused rest)

-- Only the empty list starts where it stops, at NULL.
pub Chain-null : {c : Cells} {p q : Ptr} {xs : Nodes} → Chain c q p xs → p ≡ null → xs ≡ []
Chain-null done e = refl
Chain-null (link nn at new rest) e = absurd (nn e)

pub Chain-append :
    {c : Cells} {q r p : Ptr} {xs ys : Nodes}
    → Chain c q p xs
    → Chain c r q ys
    → ((a : Ptr) → has a xs ≡ true → has a ys ≡ false)
    → Chain c r p (xs ++ ys)
Chain-append done back apart = back
Chain-append {ys} (link {a} {xs} nn at new rest) back apart =
    link nn at (has-append a xs ys ∙ ground (arith, apart a))
      (Chain-append rest back λ b h. apart b (ground arith))

pub set_next-node :
    (s : Store) {p : Ptr} {n : Node} (q : Ptr)
    → p ≢ null
    → s.cell p ≡ some n
    → set_next p q s ≡ some (tt, record s { cell = update s.cell p (some (node n.item q)) })
unfolding set_next
set_next-node s q nn at = ground arith
