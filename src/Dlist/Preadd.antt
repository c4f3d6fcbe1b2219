-- ===== src/Dlist/Preadd.antt =====
-- `ac_list_preadd`, and `ac_list_reverse` after it.
use libac.Heap.{Ptr, null, update}
use libac.Heap.Nodes.{Nodes, has, last_addr}
use libac.Prelude.{
  ℕ, zero, suc, ◌+◌, ◌<◌, ◌≡◌, refl, ◌∙◌, ◌≢◌, true, false, Option, none, some, List, [], ◌∷◌,
  arith, length,
}
use libac.Dlist.{Node, node, Cells, Store, preadd, reverse_from, reverse}
use libac.Dlist.Chain.{Forward, stop, step, done, link, Holds, has_of_none}
use libac.Dlist.Reverse.{turned, turned_lem, reverse_from-step, reverse_from-null}

-- The `next` pointers lead through the nodes to NULL, and every `prev` is NULL.
pub data Fronts (c : Cells) : Ptr → Nodes → Type 0 where
  no_more : Fronts c null []
  front :
      {a n : Ptr} {d : ℕ} {xs : Nodes}
      → a ≢ null
      → c a ≡ some (node d null n)
      → has a xs ≡ false
      → Fronts c n xs
      → Fronts c a ((a, d) ∷ xs)

Fronts-Forward : {c : Cells} {p : Ptr} {xs : Nodes} → Fronts c p xs → Forward c p xs
Fronts-Forward no_more = stop
Fronts-Forward (front nn at new rest) = step nn at new (Fronts-Forward rest)

Fronts-frame :
    {c c' : Cells} {p : Ptr} {xs : Nodes}
    → Fronts c p xs
    → ((b : Ptr) → has b xs ≡ true → c' b ≡ c b)
    → Fronts c' p xs
Fronts-frame no_more same = no_more
Fronts-frame (front {a} nn at new rest) same =
    front nn (same a (ground arith) ∙ at) new (Fronts-frame rest λ b h. same b (ground arith))

abbrev pub last_datum : ℕ → Nodes → ℕ
last_datum d [] = d
last_datum d ((b, e) ∷ xs) = last_datum e xs

-- What is left of them: the last.
reverse_from-last :
    (f : ℕ) (c : Cells) (log : List ℕ) (b : Ptr) {p n : Ptr} {d : ℕ} {xs : Nodes}
    → p ≢ null
    → c p ≡ some (node d null n)
    → has p xs ≡ false
    → Fronts c n xs
    → length xs + 1 < f
    → (s' : Store) × (reverse_from f b (record { root = p; cell = c; calls = log }) ≡ some (tt, s'))
      × Holds s' ((last_addr p xs, last_datum d xs) ∷ [])
reverse_from-last zero c log b nn at own ch fuel = absurd (omega arith)
reverse_from-last (suc zero) c log b nn at own ch fuel = absurd (omega arith)
reverse_from-last (suc (suc f)) c log b {p} {d} nn at own no_more fuel =
    let c' : Cells = turned c p d null null in
    (
      record { root = p; cell = c'; calls = log },
      reverse_from-step (suc f) c log b nn at ∙ reverse_from-null f c' log p,
      link nn (turned_lem c p d null null p ∙ ground arith) refl done,
    )
reverse_from-last (suc (suc f)) c log b {p} {n} {d} nn at own
      (front {n = m} {d = e} {xs} nn' at' own' rest) fuel =
    let c' : Cells = turned c p d null n in
    let (s', run, held) =
      reverse_from-last (suc f) c' log p nn' (turned_lem c p d null n n ∙ ground arith) own'
        (Fronts-frame rest (λ a h. turned_lem c p d null n a ∙ ground arith)) (omega arith) in
    (s', reverse_from-step (suc f) c log b nn at ∙ run, held)

-- `ac_list_preadd` puts a fresh node with the datum at the front of a list that its calls alone have
-- built, and leaves NULL in every `prev`. Of the list, of fewer than `fuel - 1` nodes, a call of
-- `ac_list_reverse` then leaves the last node alone; the others are lost.
pub preadd-Fronts :
    (s : Store) (new : Ptr) (item fuel : ℕ) {xs : Nodes}
    → new ≢ null
    → s.cell new ≡ none
    → Fronts s.cell s.root xs
    → length xs + 2 < fuel
    → (s' : Store) × (preadd new item s ≡ some (tt, s'))
      × Fronts s'.cell s'.root ((new, item) ∷ xs)
      × ((s'' : Store) × (reverse fuel s' ≡ some (tt, s''))
          × Holds s'' ((last_addr new xs, last_datum item xs) ∷ []))
unfolding preadd reverse
preadd-Fronts s new item fuel {xs} new_nn unused ch enough =
    let v : Option Node = some (node item null s.root) in
    let own : has new xs ≡ false = has_of_none new unused (Fronts-Forward ch) in
    let rest : Fronts (update s.cell new v) s.root xs = Fronts-frame ch (λ b h. ground arith) in
    let at : update s.cell new v new ≡ v = ground arith in
    (
      record s { root = new; cell = update s.cell new v },
      refl,
      front new_nn at own rest,
      reverse_from-last fuel (update s.cell new v) s.calls null new_nn at own rest (omega arith),
    )
