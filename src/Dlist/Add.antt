-- ===== src/Dlist/Add.antt =====
-- `ac_list_add` and `ac_list_preadd`.
use libac.Heap.{Ptr, not_null, null, update}
use libac.Heap.Nodes.{Nodes, SameOutside, has, has-append, last_addr}
use libac.Prelude.{
  ℕ, ◌<◌, ◌≡◌, refl, ap, ◌∙◌, ◌≢◌, true, false, Option, none, some, List, [], ◌∷◌, ◌++◌, arith,
  length, ◌==◌, if◌then◌else◌,
}
use libac.Dlist.{node, Cells, Store, add}
use libac.Dlist.Chain.{
  Chain, done, link, Holds, Chain-Forward, Chain-update, has_of_none, set_next-node, set_prev-node,
}
use libac.Dlist.Read.{last-last_addr}

-- What a call that adds a node leaves: the list `ys`, the same calls, and all addresses but those
-- of `ys` unchanged.
abbrev pub Leaves : Store → Option (Unit {0} × Store) → Nodes → Type 0
Leaves s run ys =
    (s' : Store) × (run ≡ some (tt, s'))
    × Holds s' ys
    × (s'.calls ≡ s.calls)
    × SameOutside ys s.cell s'.cell

-- A new node linked both ways behind the node at `l`
linked : Cells → Ptr → ℕ → ℕ → Ptr → Ptr → Cells
linked c new item dl bl l =
    update (update c l (some (node dl bl new))) new (some (node item l null))

linked_lem :
    (c : Cells) (new : Ptr) (item dl : ℕ) (bl l a : Ptr)
    → linked c new item dl bl l a ≡ (
        if a == new then some (node item l null) else if a == l then some (node dl bl new) else c a)
unfolding linked
linked_lem c new item dl bl l a = ground arith

module _ (c : Cells) (new : Ptr) (item : ℕ) (new_nn : new ≢ null)
    (new_at : c new ≡ some (node item null null)) where
  abbrev Extends : Ptr → Ptr → ℕ → Nodes → Type 0
  Extends b a d xs =
      (dl : ℕ) × (bl : Ptr) × (last_addr a xs ≢ null)
      × (c (last_addr a xs) ≡ some (node dl bl null))
      × (has (last_addr a xs) ((a, d) ∷ xs) ≡ true)
      × Chain (linked c new item dl bl (last_addr a xs)) b a (((a, d) ∷ xs) ++ (new, item) ∷ [])

  extend :
      {a b n : Ptr} {d : ℕ} {xs : Nodes}
      → a ≢ null
      → c a ≡ some (node d b n)
      → has a xs ≡ false
      → has new ((a, d) ∷ xs) ≡ false
      → Chain c a n xs
      → Extends b a d xs
  extend {a} {b} {d} nn at own fresh done = (
    d,
    b,
    nn,
    at,
    ground arith,
    link nn (linked_lem c new item d b a a ∙ ground arith) (ground arith)
        (link new_nn (linked_lem c new item d b a new ∙ ground arith) refl done),
  )
  extend {a} {b} {d} nn at own fresh (link {a = a'} {d = e} {xs} nn' at' own' rest) =
      let (dl, bl, l_nn, l_at, l_in, ch) = extend nn' at' own' (ground arith) rest in
      (
        dl,
        bl,
        l_nn,
        l_at,
        ground arith,
        link nn (linked_lem c new item dl bl (last_addr a' xs) a ∙ ground arith)
            (has-append a ((a', e) ∷ xs) ((new, item) ∷ []) ∙ ground arith) ch,
      )

linked_after :
    (c : Cells) (new item : ℕ) (dl : ℕ) (bl l : Ptr) (xs : Nodes) (b : Ptr)
    → has l xs ≡ true
    → has b (xs ++ (new, item) ∷ []) ≡ false
    → linked (update c new (some (node item null null))) new item dl bl l b ≡ c b
unfolding linked
linked_after c new item dl bl l xs b l_in far =
    ground (arith, has-append b xs ((new, item) ∷ []), λ (e : b ≡ l). ap (λ x. has x xs) e)

apart_from : (a l : Ptr) (xs : Nodes) → has l xs ≡ true → has a xs ≡ false → (a == l) ≡ false
apart_from a l xs l_in out = ground (arith, λ (e : a ≡ l). ap (λ x. has x xs) e)

add-Chain :
    (c : Cells) (log : List ℕ) (new : Ptr) (item fuel : ℕ) {p : Ptr} {xs : Nodes}
    → new ≢ null
    → c new ≡ none
    → Chain c null p xs
    → length xs < fuel
    → Leaves
        (record { root = p; cell = c; calls = log })
        (add fuel new item (record { root = p; cell = c; calls = log }))
        (xs ++ (new, item) ∷ [])
unfolding add linked
add-Chain c log new item fuel new_nn unused done enough = (
  record { root = new; cell = update c new (some (node item null null)); calls = log },
  refl,
  link new_nn (ground arith) refl done,
  refl,
  λ b out. ground arith,
)
add-Chain c log new item fuel {p} new_nn unused (link {n} {d} {xs} nn at own rest) enough =
    let c1 : Cells = update c new (some (node item null null)) in
    let s1 : Store = record { root = p; cell = c1; calls = log } in
    let out : has new ((p, d) ∷ xs) ≡ false =
      has_of_none new unused (Chain-Forward (link nn at own rest)) in
    let at' : c1 p ≡ some (node d null n) = ground arith in
    let rest' : Chain c1 p n xs =
      Chain-update new (some (node item null null)) rest (ground arith) in
    let new_at : c1 new ≡ some (node item null null) = ground arith in
    let (dl, bl, l_nn, l_at, l_in, ch) = extend c1 new item new_nn new_at nn at' own out rest' in
    let l : Ptr = last_addr p xs in
    let s2 : Store = record { root = p; cell = update c1 l (some (node dl bl new)); calls = log } in
    let ne : (new == l) ≡ false = apart_from new l ((p, d) ∷ xs) l_in out in
    (
      record { root = p; cell = linked c1 new item dl bl l; calls = log },
      rw
          (
            not_null nn,
            last-last_addr s1 fuel nn at' (Chain-Forward rest') (omega arith),
            set_next-node s1 new l_nn l_at,
            set_prev-node s2 {n = node item null null} l new_nn (rw ne new_at),
          )
          refl,
      ch,
      refl,
      λ b far. linked_after c new item dl bl l ((p, d) ∷ xs) b l_in far,
    )

-- `ac_list_add` puts a fresh node with the datum at the end of the list and links it both ways.
pub add-Leaves :
    (s : Store) (new : Ptr) (item fuel : ℕ) {xs : Nodes}
    → new ≢ null
    → s.cell new ≡ none
    → Holds s xs
    → length xs < fuel
    → Leaves s (add fuel new item s) (xs ++ (new, item) ∷ [])
add-Leaves s new item fuel new_nn unused held enough =
    add-Chain s.cell s.calls new item fuel new_nn unused held enough
