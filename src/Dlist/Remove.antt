-- ===== src/Dlist/Remove.antt =====
-- `ac_list_remove`, `ac_list_remove_nth` and `ac_list_remove_custom`.
use libac.Heap.{is_position, Loc, Ptr, load-node, next_of, not_null, null}
use libac.Heap.Nodes.{Nodes, SameOutside, has}
use libac.Heap.Erase.{Freed, any_from, calls_from, erase_from, has-erase_from}
use libac.Prelude.Int.{ℤ}
use libac.Prelude.{
  ℕ, zero, suc, ◌+◌, ◌<◌, ◌≡◌, refl, ap, ◌∙◌, ◌≢◌, Bool, false, Option, some, List, [], ◌∷◌, ◌++◌,
  arith, length, ◌==◌, if◌then◌else◌, Bool-cases, inl, inr,
}
use libac.Dlist.{node, Cells, Store, get_loc, remove_loop, remove, remove_nth, remove_custom}
use libac.Dlist.Chain.{Chain, done, link, Holds}
use libac.Dlist.Unlink.{get_next, unlink-Unlinks, unlink-UnlinksFirst}

module _ (found : ℕ → ℕ → Bool) where
  -- The loop at the `next` of the node at `a`, before the nodes `xs`.
  abbrev Scan :
      Cells → Ptr → List ℕ → Bool → ℕ → Ptr → ℕ → Ptr → Nodes → Option (Bool × Store) → Type 0
  Scan c r log fd i a d b xs run =
      (s' : Store) × (n : Ptr) × (run ≡ some (any_from found i xs, s'))
      × (s'.cell a ≡ some (node d b n))
      × Chain s'.cell a n (erase_from found i xs)
      × (s'.root ≡ r)
      × (s'.calls ≡ calls_from found fd log i xs)
      × ((x : Ptr) → has x xs ≡ false → x ≢ a → s'.cell x ≡ c x)
      × Freed xs (erase_from found i xs) s'.cell

  scan :
      (f : ℕ) (c : Cells) (r : Ptr) (log : List ℕ) (fd : Bool) (i : ℕ) {a b n : Ptr} {d : ℕ}
      {xs : Nodes}
      → a ≢ null
      → c a ≡ some (node d b n)
      → has a xs ≡ false
      → Chain c a n xs
      → length xs < f
      → Scan c r log fd i a d b xs
          (remove_loop found fd f i (next_of a) (record { root = r; cell = c; calls = log }))
  unfolding remove_loop any_from erase_from calls_from
  scan zero c r log fd i nn at own ch fuel = absurd (omega arith)
  scan (suc f) c r log fd i {a} {b} {d} nn at own done fuel =
      let s : Store = record { root = r; cell = c; calls = log } in
      (s, null, rw (get_next s nn at) refl, at, done, refl, refl, λ x far ne. refl, λ x h. cc)
  scan (suc f) c r log fd i {a} {b} {d} nn at own
        (link {a = p} {n = m} {d = e} {xs} nn' at' own' rest) fuel =
      let s : Store = record { root = r; cell = c; calls = log } in
      elim (Bool-cases (found i e)) [
        | inl hit ↦
            let (c', n', run, a_at, ch, same, gone) =
              unlink-Unlinks s fd nn at own nn' at' own' rest in
            (
              record { root = r; cell = c'; calls = if fd then log ++ e ∷ [] else log },
              n',
              rw (get_next s nn at, not_null nn', load-node s nn' at', hit) run,
              a_at,
              rw hit ch,
              refl,
              rw hit refl,
              λ x far ne. same x (ground arith) ne (ground arith),
              λ x h out. ground (arith, gone, λ (eq : x ≡ p). ap c' eq),
            )
        | inr miss ↦
            let (s', n', run, p_at, ch, root, calls, same, freed) =
              scan f c r log fd (i + 1) nn' at' own' rest (omega arith) in
            (
              s',
              p,
              rw (get_next s nn at, not_null nn', load-node s nn' at', miss) run,
              same a (ground arith) (ground arith) ∙ at,
              rw miss (link nn' p_at (has-erase_from found (i + 1) p xs own') ch),
              root,
              rw miss calls,
              λ x far ne. same x (ground arith) (ground arith),
              λ x h gone. freed x (ground arith) (ground arith),
            )
      ]

  -- What a removal from the list `xs` leaves.
  abbrev pub Removes : Store → Bool → Nodes → Option (Bool × Store) → Type 0
  Removes s fd xs run =
      (s' : Store) × (run ≡ some (any_from found 0 xs, s'))
      × Holds s' (erase_from found 0 xs)
      × (s'.calls ≡ calls_from found fd s.calls 0 xs)
      × SameOutside xs s.cell s'.cell
      × Freed xs (erase_from found 0 xs) s'.cell

  remove-Chain :
      (f : ℕ) (c : Cells) (log : List ℕ) (fd : Bool) {p : Ptr} {xs : Nodes}
      → Chain c null p xs
      → length xs < f
      → Removes
          (record { root = p; cell = c; calls = log })
          fd
          xs
          (remove_loop found fd f 0 Loc.root (record { root = p; cell = c; calls = log }))
  unfolding remove_loop any_from erase_from calls_from get_loc
  remove-Chain zero c log fd ch fuel = absurd (omega arith)
  remove-Chain (suc f) c log fd done fuel =
      (record { root = null; cell = c; calls = log }, refl, done, refl, λ x far. refl, λ x h. cc)
  remove-Chain (suc f) c log fd {p} (link {n = m} {d = e} {xs} nn at own rest) fuel =
      let s : Store = record { root = p; cell = c; calls = log } in
      elim (Bool-cases (found 0 e)) [
        | inl hit ↦
            let (c', n', run, ch, same, gone) = unlink-UnlinksFirst s fd nn at own rest in
            (
              record { root = n'; cell = c'; calls = if fd then log ++ e ∷ [] else log },
              rw (not_null nn, load-node s nn at, hit) run,
              rw hit ch,
              rw hit refl,
              λ x far. same x (ground arith) (ground arith),
              λ x h out. ground (arith, gone, λ (eq : x ≡ p). ap c' eq),
            )
        | inr miss ↦
            let (s', n', run, p_at, ch, root, calls, same, freed) =
              scan f c p log fd 1 nn at own rest (omega arith) in
            (
              s',
              rw (not_null nn, load-node s nn at, miss) run,
              rw (miss, root) (link nn p_at (has-erase_from found 1 p xs own) ch),
              rw miss calls,
              λ x far. same x (ground arith) (ground arith),
              λ x h out. freed x (ground arith) (ground arith),
            )
      ]

-- Each removal takes out the first node that passes its test (`ac_list_remove` that the datum is the
-- one given, `_nth` that the position is, `_custom` that the comparison finds them equal), links its
-- neighbours both ways, says whether there was one, passes its datum to `free_data` if one is given,
-- frees exactly that node, and changes no address outside the list.
pub removals_both_ways :
    (s : Store) (fuel : ℕ) (fd : Bool) {xs : Nodes}
    → Holds s xs
    → length xs < fuel
    → ((item : ℕ) → Removes (λ i d. d == item) s fd xs (remove fuel item fd s))
      × ((n : ℤ) → Removes (λ i d. is_position n i) s fd xs (remove_nth fuel n fd s))
      × ((same : ℕ → Bool) → Removes (λ i d. same d) s fd xs (remove_custom fuel same fd s))
unfolding remove remove_nth remove_custom
removals_both_ways s fuel fd held enough = (
  λ item. remove-Chain (λ i d. d == item) fuel s.cell s.calls fd held enough,
  λ n. remove-Chain (λ i d. is_position n i) fuel s.cell s.calls fd held enough,
  λ same. remove-Chain (λ i d. same d) fuel s.cell s.calls fd held enough,
)
