-- ===== src/Slist/Remove.antt =====
-- `ac_slist_remove`, `ac_slist_remove_nth` and `ac_slist_remove_custom`.
use libac.Prelude.Int.{ℤ}
use libac.Heap.{is_position, Loc, Ptr, free-node, load-node, next_of, not_null, null, update}
use libac.Heap.Nodes.{Nodes, SameOutside, has}
use libac.Heap.Erase.{Freed, any_from, calls_from, erase_from, has-erase_from}
use libac.Prelude.{
  ℕ, zero, suc, ◌+◌, ◌<◌, ◌≡◌, refl, ◌∙◌, ◌≢◌, Bool, false, Option, none, some, List, [], ◌∷◌, ◌++◌,
  arith, length, ◌==◌, if◌then◌else◌, Bool-cases, inl, inr,
}
use libac.Slist.{
  node, Cells, Store, get_loc, unlink, remove_loop, remove, remove_nth, remove_custom,
}
use libac.Slist.Chain.{Chain, done, link, Holds, Chain-update, set_next-node}

module _ (found : ℕ → ℕ → Bool) where
  -- The loop at the `next` of the node at `a`, before the nodes `xs`.
  abbrev Scan : Cells → Ptr → List ℕ → Bool → ℕ → Ptr → ℕ → Nodes → Option (Bool × Store) → Type 0
  Scan c r log fd i a d xs run =
      (s' : Store) × (n : Ptr) × (run ≡ some (any_from found i xs, s'))
      × (s'.cell a ≡ some (node d n))
      × Chain s'.cell null n (erase_from found i xs)
      × (s'.root ≡ r)
      × (s'.calls ≡ calls_from found fd log i xs)
      × ((b : Ptr) → has b xs ≡ false → b ≢ a → s'.cell b ≡ c b)
      × Freed xs (erase_from found i xs) s'.cell

  scan :
      (f : ℕ) (c : Cells) (r : Ptr) (log : List ℕ) (fd : Bool) (i : ℕ) {a n : Ptr} {d : ℕ}
      {xs : Nodes}
      → a ≢ null
      → c a ≡ some (node d n)
      → has a xs ≡ false
      → Chain c null n xs
      → length xs < f
      → Scan c r log fd i a d xs
          (remove_loop found fd f i (next_of a) (record { root = r; cell = c; calls = log }))
  unfolding remove_loop any_from erase_from calls_from get_loc unlink
  scan zero c r log fd i nn at own ch fuel = absurd (omega arith)
  scan (suc f) c r log fd i {a} {d} nn at own done fuel =
      let s : Store = record { root = r; cell = c; calls = log } in
      (s, null, rw (load-node s nn at), at, done, refl, refl, λ b far ne. refl, λ b h. cc)
  scan (suc f) c r log fd i {a} {d} nn at own (link {a = b} {n = m} {d = e} {xs} nn' at' own' rest)
        fuel =
      let s : Store = record { root = r; cell = c; calls = log } in
      elim (Bool-cases (found i e)) [
        | inl hit ↦
            let c1 : Cells = update c a (some (node d m)) in
            let log' : List ℕ = if fd then log ++ e ∷ [] else log in
            let t : Store = record { root = r; cell = c1; calls = log' } in
            (
              record { root = r; cell = update c1 b none; calls = log' },
              m,
              rw (
                load-node s nn at,
                not_null nn',
                load-node s nn' at',
                hit,
                set_next-node s m nn at,
                free-node t {n = node e m} nn' (ground arith),
              ),
              ground arith,
              rw hit
                  (Chain-update b none (Chain-update a (some (node d m)) rest (ground arith)) own'),
              refl,
              rw hit,
              λ x far ne. ground arith,
              λ x h gone. ground arith,
            )
        | inr miss ↦
            let (s', n', run, b_at, ch, root, calls, same, freed) =
              scan f c r log fd (i + 1) nn' at' own' rest (omega arith) in
            (
              s',
              b,
              rw (load-node s nn at, not_null nn', load-node s nn' at', miss) run,
              same a (ground arith) (ground arith) ∙ at,
              rw miss (link nn' b_at (has-erase_from found (i + 1) b xs own') ch),
              root,
              rw miss calls,
              λ x far ne. same x (ground arith) (ground arith),
              λ x h gone. freed x (ground arith) (ground arith),
            )
      ]

  -- What a removal from the list `xs` leaves.
  abbrev pub Removes : Store → Bool → Nodes → Option (Bool × Store) → Type 0
  Removes s fd xs run =
      (s' : Store) × (run ≡ some (any_from found 0 xs, s'))
      × Holds s' (erase_from found 0 xs)
      × (s'.calls ≡ calls_from found fd s.calls 0 xs)
      × SameOutside xs s.cell s'.cell
      × Freed xs (erase_from found 0 xs) s'.cell

  remove-Chain :
      (f : ℕ) (c : Cells) (log : List ℕ) (fd : Bool) {p : Ptr} {xs : Nodes}
      → Chain c null p xs
      → length xs < f
      → Removes
          (record { root = p; cell = c; calls = log })
          fd
          xs
          (remove_loop found fd f 0 Loc.root (record { root = p; cell = c; calls = log }))
  unfolding remove_loop any_from erase_from calls_from get_loc unlink
  remove-Chain zero c log fd ch fuel = absurd (omega arith)
  remove-Chain (suc f) c log fd done fuel =
      (record { root = null; cell = c; calls = log }, refl, done, refl, λ b far. refl, λ b h. cc)
  remove-Chain (suc f) c log fd {p} (link {n = m} {d = e} {xs} nn at own rest) fuel =
      let s : Store = record { root = p; cell = c; calls = log } in
      elim (Bool-cases (found 0 e)) [
        | inl hit ↦
            let log' : List ℕ = if fd then log ++ e ∷ [] else log in
            let t : Store = record { root = m; cell = c; calls = log' } in
            (
              record { root = m; cell = update c p none; calls = log' },
              rw (not_null nn, load-node s nn at, hit, free-node t nn at),
              rw hit (Chain-update p none rest own),
              rw hit,
              λ x far. ground arith,
              λ x h gone. ground arith,
            )
        | inr miss ↦
            let (s', n', run, p_at, ch, root, calls, same, freed) =
              scan f c p log fd 1 nn at own rest (omega arith) in
            (
              s',
              rw (not_null nn, load-node s nn at, miss) run,
              rw (miss, root) (link nn p_at (has-erase_from found 1 p xs own) ch),
              rw miss calls,
              λ x far. same x (ground arith) (ground arith),
              λ x h gone. freed x (ground arith) (ground arith),
            )
      ]

-- Each removal takes out the first node that passes its test (`ac_slist_remove` that the datum is the
-- one given, `_nth` that the position is, `_custom` that the comparison finds them equal), says
-- whether there was one, passes its datum to `free_data` if one is given, frees exactly that node,
-- and changes no address outside the list.
pub removals :
    (s : Store) (fuel : ℕ) (fd : Bool) {xs : Nodes}
    → Holds s xs
    → length xs < fuel
    → ((item : ℕ) → Removes (λ i d. d == item) s fd xs (remove fuel item fd s))
      × ((n : ℤ) → Removes (λ i d. is_position n i) s fd xs (remove_nth fuel n fd s))
      × ((same : ℕ → Bool) → Removes (λ i d. same d) s fd xs (remove_custom fuel same fd s))
unfolding remove remove_nth remove_custom
removals s fuel fd held enough = (
  λ item. remove-Chain (λ i d. d == item) fuel s.cell s.calls fd held enough,
  λ n. remove-Chain (λ i d. is_position n i) fuel s.cell s.calls fd held enough,
  λ same. remove-Chain (λ i d. same d) fuel s.cell s.calls fd held enough,
)
