-- ===== src/Slist/Add.antt =====
-- `ac_slist_add` and `ac_slist_preadd`.
use libac.Heap.{Ptr, not_null, null, update}
use libac.Heap.Nodes.{Nodes, SameOutside, has, has-append, last_addr}
use libac.Prelude.{
  ℕ, ◌<◌, ◌≡◌, refl, ap, ◌∙◌, ◌≢◌, true, false, Option, none, some, List, [], ◌∷◌, ◌++◌, arith,
  length,
}
use libac.Slist.{Node, node, Cells, Store, add, preadd}
use libac.Slist.Chain.{Chain, done, link, Holds, Chain-update, has_of_none, set_next-node}
use libac.Slist.Read.{last-last_addr}

-- Making a fresh node the successor of the last node extends the chain by it.
module _ (c : Cells) (new : Ptr) (item : ℕ) (new_nn : new ≢ null)
    (new_at : c new ≡ some (node item null)) where
  abbrev Extends : Ptr → ℕ → Nodes → Type 0
  Extends a d xs =
      (dl : ℕ) × (last_addr a xs ≢ null)
      × (c (last_addr a xs) ≡ some (node dl null))
      × (has (last_addr a xs) ((a, d) ∷ xs) ≡ true)
      × Chain (update c (last_addr a xs) (some (node dl new))) null a
          (((a, d) ∷ xs) ++ (new, item) ∷ [])

  pub extend :
      {a n : Ptr} {d : ℕ} {xs : Nodes}
      → a ≢ null
      → c a ≡ some (node d n)
      → has a xs ≡ false
      → has new ((a, d) ∷ xs) ≡ false
      → Chain c null n xs
      → Extends a d xs
  extend {a} {d} nn at own fresh done = (
    d,
    nn,
    at,
    ground arith,
    link nn (ground arith) (ground arith) (link new_nn (ground arith) refl done),
  )
  extend {a} {d} nn at own fresh (link {a = b} {d = e} {xs} nn' at' own' rest) =
      let (dl, l_nn, l_at, l_in, ch) = extend nn' at' own' (ground arith) rest in
      (
        dl,
        l_nn,
        l_at,
        ground arith,
        link nn (ground arith) (has-append a ((b, e) ∷ xs) ((new, item) ∷ []) ∙ ground arith) ch,
      )

-- What a call that adds a node leaves: the list `ys`, the same calls, and all addresses but those
-- of `ys` unchanged.
abbrev pub Leaves : Store → Option (Unit {0} × Store) → Nodes → Type 0
Leaves s run ys =
    (s' : Store) × (run ≡ some (tt, s'))
    × Holds s' ys
    × (s'.calls ≡ s.calls)
    × SameOutside ys s.cell s'.cell

same_after :
    (c : Cells) (new l : Ptr) (v w : Option Node) (xs : Nodes) (item : ℕ) (b : Ptr)
    → has l xs ≡ true
    → has b (xs ++ (new, item) ∷ []) ≡ false
    → update (update c new v) l w b ≡ c b
same_after c new l v w xs item b l_in far =
    ground (arith, has-append b xs ((new, item) ∷ []), λ (e : b ≡ l). ap (λ x. has x xs) e)

add-Chain :
    (c : Cells) (log : List ℕ) (new : Ptr) (item fuel : ℕ) {p : Ptr} {xs : Nodes}
    → new ≢ null
    → c new ≡ none
    → Chain c null p xs
    → length xs < fuel
    → Leaves
        (record { root = p; cell = c; calls = log })
        (add fuel new item (record { root = p; cell = c; calls = log }))
        (xs ++ (new, item) ∷ [])
unfolding add
add-Chain c log new item fuel new_nn unused done enough = (
  record { root = new; cell = update c new (some (node item null)); calls = log },
  refl,
  link new_nn (ground arith) refl done,
  refl,
  λ b out. ground arith,
)
add-Chain c log new item fuel {p} new_nn unused (link {n} {d} {xs} nn at own rest) enough =
    let c1 : Cells = update c new (some (node item null)) in
    let s1 : Store = record { root = p; cell = c1; calls = log } in
    let out : has new ((p, d) ∷ xs) ≡ false = has_of_none new unused (link nn at own rest) in
    let at' : c1 p ≡ some (node d n) = ground arith in
    let rest' : Chain c1 null n xs = Chain-update new (some (node item null)) rest (ground arith) in
    let new_at : c1 new ≡ some (node item null) = ground arith in
    let (dl, l_nn, l_at, l_in, ch) = extend c1 new item new_nn new_at nn at' own out rest' in
    (
      record { root = p; cell = update c1 (last_addr p xs) (some (node dl new)); calls = log },
      rw (
        not_null nn,
        last-last_addr s1 fuel nn at' rest' (omega arith),
        set_next-node s1 new l_nn l_at,
      ),
      ch,
      refl,
      λ b far. same_after c new (last_addr p xs) _ _ ((p, d) ∷ xs) item b l_in far,
    )

-- `ac_slist_add` puts a fresh node with the datum at the end of the list, and `ac_slist_preadd` puts
-- one at the front.
pub add_lem :
    (s : Store) (new : Ptr) (item fuel : ℕ) {xs : Nodes}
    → new ≢ null
    → s.cell new ≡ none
    → Holds s xs
    → length xs < fuel
    → Leaves s (add fuel new item s) (xs ++ (new, item) ∷ [])
      × Leaves s (preadd new item s) ((new, item) ∷ xs)
unfolding preadd
add_lem s new item fuel new_nn unused held enough = (
  add-Chain s.cell s.calls new item fuel new_nn unused held enough,
  (
    record s { root = new; cell = update s.cell new (some (node item s.root)) },
    refl,
    link new_nn (ground arith) (has_of_none new unused held)
        (Chain-update new (some (node item s.root)) held (has_of_none new unused held)),
    refl,
    λ b out. ground arith,
  ),
)
