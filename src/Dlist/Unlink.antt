-- ===== src/Dlist/Unlink.antt =====
-- What the removal functions do once the node is found.
use libac.Heap.{Loc, Ptr, free-node, load-node, next_of, not_null, null, update}
use libac.Heap.Nodes.{Nodes, SameOutside, has}
use libac.Prelude.{
  ℕ, ◌≡◌, refl, ◌∙◌, ◌≢◌, Bool, true, false, Option, none, some, [], ◌∷◌, ◌++◌, arith, ◌==◌,
  if◌then◌else◌,
}
use libac.Dlist.{node, Cells, Store, get_loc, set_loc, relink, unlink}
use libac.Dlist.Chain.{Chain, done, link, Chain-update, set_next-node, set_prev-node}

-- `if (*pp) (*pp)->prev = prev` where `*pp` leads through the nodes `xs`: they get `prev` before them.
abbrev Relinks : Store → Ptr → Ptr → Nodes → Option (Unit {0} × Store) → Type 0
Relinks s prev q xs run =
    (c : Cells) × (run ≡ some (tt, record s { cell = c }))
    × Chain c prev q xs
    × SameOutside xs s.cell c

relink-Relinks :
    (pp : Loc) (s : Store) (prev b q : Ptr) {xs : Nodes}
    → get_loc pp s ≡ some (q, s)
    → Chain s.cell b q xs
    → Relinks s prev q xs (relink pp prev s)
unfolding relink
relink-Relinks pp s prev b q at done = (s.cell, rw at refl, done, λ x far. refl)
relink-Relinks pp s prev b q at (link {n} {d} {xs} nn holds own rest) = (
  update s.cell q (some (node d prev n)),
  rw (at, not_null nn, set_prev-node s prev nn holds) refl,
  link nn (ground arith) own (Chain-update q (some (node d prev n)) rest own),
  λ x far. ground arith,
)

pub get_next :
    (s : Store) {a b n : Ptr} {d : ℕ}
    → a ≢ null
    → s.cell a ≡ some (node d b n)
    → get_loc (next_of a) s ≡ some (n, s)
unfolding get_loc
get_next s nn at = rw (load-node s nn at) refl

-- A node of the list taken out behind the node at `a`
abbrev pub Unlinks : Store → Bool → Ptr → ℕ → Ptr → Ptr → ℕ → Nodes → Option (Bool × Store) → Type 0
Unlinks s fd a d b p e xs run =
    (c : Cells) × (n : Ptr) × (run
      ≡ some (true, record s { cell = c; calls = if fd then s.calls ++ e ∷ [] else s.calls }))
    × (c a ≡ some (node d b n))
    × Chain c a n xs
    × ((x : Ptr) → has x xs ≡ false → x ≢ a → (x == p) ≡ false → c x ≡ s.cell x)
    × (c p ≡ none)

unlink_after :
    (s : Store) (fd : Bool) (c2 : Cells) {a b p m : Ptr} {d e : ℕ} {xs : Nodes}
    → a ≢ null
    → s.cell a ≡ some (node d b p)
    → has a ((p, e) ∷ xs) ≡ false
    → p ≢ null
    → s.cell p ≡ some (node e a m)
    → has p xs ≡ false
    → relink (next_of a) a (record s { cell = update s.cell a (some (node d b m)) })
      ≡ some (tt, record s { cell = c2 })
    → Chain c2 a m xs
    → SameOutside xs (update s.cell a (some (node d b m))) c2
    → Unlinks s fd a d b p e xs (unlink fd (next_of a) p (node e a m) s)
unfolding unlink set_loc
unlink_after s fd c2 {a} {b} {p} {m} {d} {e} nn at own nn' at' own' run ch same =
    let t : Store = record s { cell = c2; calls = if fd then s.calls ++ e ∷ [] else s.calls } in
    let at2 : c2 p ≡ some (node e a m) = same p own' ∙ ground arith in
    (
      update c2 p none,
      m,
      rw (set_next-node s m nn at, run, free-node t {n = node e a m} nn' at2) refl,
      ground (arith, same a),
      Chain-update p none ch own',
      λ x far ne ne'. ground (arith, same x),
      ground arith,
    )

pub unlink-Unlinks :
    (s : Store) (fd : Bool) {a b p m : Ptr} {d e : ℕ} {xs : Nodes}
    → a ≢ null
    → s.cell a ≡ some (node d b p)
    → has a ((p, e) ∷ xs) ≡ false
    → p ≢ null
    → s.cell p ≡ some (node e a m)
    → has p xs ≡ false
    → Chain s.cell p m xs
    → Unlinks s fd a d b p e xs (unlink fd (next_of a) p (node e a m) s)
unlink-Unlinks s fd {a} {b} {p} {m} {d} nn at own nn' at' own' rest =
    let v = some (node d b m) in
    let s1 : Store = record s { cell = update s.cell a v } in
    let at1 : s1.cell a ≡ v = ground arith in
    let (c2, run, ch, same) =
      relink-Relinks (next_of a) s1 a p m (get_next s1 nn at1)
        (Chain-update a v rest (ground arith)) in
    unlink_after s fd c2 nn at own nn' at' own' run ch same

-- The first node taken out
abbrev pub UnlinksFirst : Store → Bool → Ptr → ℕ → Nodes → Option (Bool × Store) → Type 0
UnlinksFirst s fd p e xs run =
    (c : Cells) × (n : Ptr) × (run
      ≡ some
          (true, record { root = n; cell = c; calls = if fd then s.calls ++ e ∷ [] else s.calls }))
    × Chain c null n xs
    × ((x : Ptr) → has x xs ≡ false → (x == p) ≡ false → c x ≡ s.cell x)
    × (c p ≡ none)

unlink_first_after :
    (s : Store) (fd : Bool) (c2 : Cells) {p m : Ptr} {e : ℕ} {xs : Nodes}
    → p ≢ null
    → s.cell p ≡ some (node e null m)
    → has p xs ≡ false
    → relink Loc.root null (record s { root = m }) ≡ some (tt, record s { root = m; cell = c2 })
    → Chain c2 null m xs
    → SameOutside xs s.cell c2
    → UnlinksFirst s fd p e xs (unlink fd Loc.root p (node e null m) s)
unfolding unlink set_loc
unlink_first_after s fd c2 {p} {m} {e} nn at own run ch same =
    let t : Store = record {
      root = m;
      cell = c2;
      calls = if fd then s.calls ++ e ∷ [] else s.calls;
    } in
    (
      update c2 p none,
      m,
      rw (run, free-node t {n = node e null m} nn (same p own ∙ at)) refl,
      Chain-update p none ch own,
      λ x far ne. ground (arith, same x),
      ground arith,
    )

pub unlink-UnlinksFirst :
    (s : Store) (fd : Bool) {p m : Ptr} {e : ℕ} {xs : Nodes}
    → p ≢ null
    → s.cell p ≡ some (node e null m)
    → has p xs ≡ false
    → Chain s.cell p m xs
    → UnlinksFirst s fd p e xs (unlink fd Loc.root p (node e null m) s)
unlink-UnlinksFirst s fd {p} {m} nn at own rest =
    let (c2, run, ch, same) =
      relink-Relinks Loc.root (record s { root = m }) null p m (unfold get_loc in refl) rest in
    unlink_first_after s fd c2 nn at own run ch same
