-- ===== src/Dlist/Read.antt =====
-- The functions that read a list: `ac_list_last`, `_len`, `_find`, `_nth_data`, `_foreach`,
-- `_rev_foreach`.
use mathlib.Core.List
use mathlib.Core.List.{append-nil, append_assoc, map-append, reverse-cons}
use libac.Heap.{rounds, Ptr, load-node, not_null, null}
use libac.Heap.Nodes.{Nodes, datum, first, last_addr}
use libac.Prelude.Int.{ℤ}
use libac.Prelude.{
  ℕ, zero, suc, ◌+◌, ◌-◌, ◌<◌, ◌≡◌, refl, sym, ap, ◌∙◌, ◌≢◌, Bool, some, List, [], ◌∷◌, ◌++◌, map,
  arith, length, get_elem?, ◌==◌, Bool-cases, inl, inr,
}
use libac.Dlist.{
  node, Cells, Store, last, len, len_from, find_custom, find, nth_from, nth_data, foreach,
  walk_back, rev_foreach,
}
use libac.Dlist.Chain.{Forward, stop, step, Chain, done, link, Holds, Chain-Forward}

pub last-last_addr :
    (s : Store) (f : ℕ) {a b n : Ptr} {d : ℕ} {xs : Nodes}
    → a ≢ null
    → s.cell a ≡ some (node d b n)
    → Forward s.cell n xs
    → length xs < f
    → last f a s ≡ some (last_addr a xs, s)
unfolding last
last-last_addr s zero nn at ch fuel = absurd (omega arith)
last-last_addr s (suc f) nn at stop fuel = rw (load-node s nn at)
last-last_addr s (suc f) nn at (step nn' at' new rest) fuel =
    rw (load-node s nn at, not_null nn') (last-last_addr s f nn' at' rest (omega arith))

module _ (s : Store) where
  len_from-length :
      (f l : ℕ) {p : Ptr} {xs : Nodes}
      → Forward s.cell p xs
      → length xs < f
      → len_from f p l s ≡ some (l + length xs, s)
  unfolding len_from
  len_from-length zero l ch fuel = absurd (omega arith)
  len_from-length (suc f) l stop fuel = ap (λ n. some (n, s)) (omega arith)
  len_from-length (suc f) l (step {xs} nn at new rest) fuel =
      rw (not_null nn, load-node s nn at)
        (len_from-length f (l + 1) rest (omega arith) ∙ ap (λ n. some (n, s)) (omega arith))

  find_custom-first :
      (found : ℕ → Bool) (f : ℕ) {p : Ptr} {xs : Nodes}
      → Forward s.cell p xs
      → length xs < f
      → find_custom found f p s ≡ some (first found xs, s)
  unfolding find_custom
  find_custom-first found zero ch fuel = absurd (omega arith)
  find_custom-first found (suc f) stop fuel = refl
  find_custom-first found (suc f) (step {d} nn at new rest) fuel =
      rw (not_null nn, load-node s nn at)
        (elim (Bool-cases (found d)) [
          | inl hit ↦ rw hit
          | inr miss ↦ rw miss (find_custom-first found f rest (omega arith))
        ])

  nth_from-get_elem? :
      (i : ℕ) {a b n : Ptr} {d : ℕ} {xs : Nodes}
      → a ≢ null
      → s.cell a ≡ some (node d b n)
      → Forward s.cell n xs
      → nth_from i a s ≡ some (get_elem? (d ∷ map datum xs) i, s)
  unfolding nth_from
  nth_from-get_elem? zero nn at ch = rw (load-node s nn at)
  nth_from-get_elem? (suc i) nn at stop = rw (load-node s nn at)
  nth_from-get_elem? (suc i) nn at (step nn' at' new rest) =
      rw (load-node s nn at, not_null nn') (nth_from-get_elem? i nn' at' rest)

  nth_data-get_elem? :
      (n : ℤ) {p : Ptr} {xs : Nodes}
      → Forward s.cell p xs
      → nth_data p n s ≡ some (get_elem? (map datum xs) (rounds n), s)
  unfolding nth_data
  nth_data-get_elem? n stop = refl
  nth_data-get_elem? n (step nn at new rest) =
      rw (not_null nn) (nth_from-get_elem? (rounds n) nn at rest)

  -- Where the `next` pointers lead through fewer than `fuel` nodes to NULL, whatever `prev` holds,
  -- `ac_list_len` gives their number, `ac_list_find` and `ac_list_find_custom` the first node that
  -- passes the test or NULL, and `ac_list_nth_data` the datum at a position, the first datum at a
  -- negative one, or NULL past the end; none of them faults or changes the store.
  pub reads_along :
      (fuel : ℕ) {xs : Nodes}
      → Forward s.cell s.root xs
      → length xs < fuel
      → (len fuel s.root s ≡ some (length xs, s))
        × ((item : ℕ) → find fuel item s.root s ≡ some (first (λ d. d == item) xs, s))
        × ((found : ℕ → Bool) → find_custom found fuel s.root s ≡ some (first found xs, s))
        × ((n : ℤ) → nth_data s.root n s ≡ some (get_elem? (map datum xs) (rounds n), s))
  unfolding len find nth_data
  reads_along fuel {xs} held enough = (
    len_from-length fuel 0 held enough ∙ ap (λ n. some (n, s)) (omega arith),
    λ item. find_custom-first (λ d. d == item) fuel held enough,
    λ found. find_custom-first found fuel held enough,
    λ n. nth_data-get_elem? n held,
  )

foreach-data :
    (c : Cells) (f : ℕ) (r : Ptr) (log : List ℕ) {p : Ptr} {xs : Nodes}
    → Forward c p xs
    → length xs < f
    → foreach f p (record { root = r; cell = c; calls = log })
      ≡ some (tt, record { root = r; cell = c; calls = log ++ map datum xs })
unfolding foreach
foreach-data c zero r log ch fuel = absurd (omega arith)
foreach-data c (suc f) r log stop fuel =
    ap (λ l. some (tt, record { root = r; cell = c; calls = l })) (sym (append-nil log))
foreach-data c (suc f) r log (step {d} {xs} nn at new rest) fuel =
    rw (not_null nn, load-node (record { root = r; cell = c; calls = log }) nn at)
      (foreach-data c f r (log ++ d ∷ []) rest (omega arith)
        ∙ ap (λ l. some (tt, record { root = r; cell = c; calls = l }))
            (append_assoc log (d ∷ []) (map datum xs)))

reverse_data :
    (log : List ℕ) (a : Ptr) (d : ℕ) (xs : Nodes)
    → (log ++ map datum (List.reverse xs)) ++ d ∷ [] ≡ log ++ map datum (List.reverse ((a, d) ∷ xs))
reverse_data log a d xs =
    append_assoc log (map datum (List.reverse xs)) (d ∷ [])
    ∙ ap (λ l. log ++ l)
        (sym (map-append datum (List.reverse xs) ((a, d) ∷ []))
          ∙ ap (map datum) (sym (reverse-cons (a, d) xs)))

walk_back-step :
    (c : Cells) (f : ℕ) (r : Ptr) (log : List ℕ) {a b n : Ptr} {d : ℕ}
    → a ≢ null
    → c a ≡ some (node d b n)
    → walk_back (suc f) a (record { root = r; cell = c; calls = log })
      ≡ walk_back f b (record { root = r; cell = c; calls = log ++ d ∷ [] })
unfolding walk_back
walk_back-step c f r log nn at =
    rw (not_null nn, load-node (record { root = r; cell = c; calls = log }) nn at) refl

-- The way back along the `prev` pointers, from the last of the nodes to the one before them all.
walk_back-data :
    (c : Cells) (f : ℕ) (r : Ptr) (log : List ℕ) {a b n : Ptr} {d : ℕ} {xs : Nodes}
    → a ≢ null
    → c a ≡ some (node d b n)
    → Chain c a n xs
    → walk_back (length xs + suc f) (last_addr a xs) (record { root = r; cell = c; calls = log })
      ≡ walk_back f b
          (record { root = r; cell = c; calls = log ++ map datum (List.reverse ((a, d) ∷ xs)) })
walk_back-data c f r log {a} nn at done =
    ap (λ k. walk_back k a (record { root = r; cell = c; calls = log })) (omega arith)
    ∙ walk_back-step c f r log nn at
walk_back-data c f r log {a} {b} {d} nn at (link {a = a'} {d = d'} {xs} nn' at' new rest) =
    let s : Store = record { root = r; cell = c; calls = log } in
    ap (λ k. walk_back k (last_addr a' xs) s) (omega arith)
    ∙ walk_back-data c (suc f) r log nn' at' rest
    ∙ walk_back-step c f r (log ++ map datum (List.reverse ((a', d') ∷ xs))) nn at
    ∙ ap (λ l. walk_back f b (record { root = r; cell = c; calls = l }))
        (reverse_data log a d ((a', d') ∷ xs))

walk_back-null : (s : Store) (f : ℕ) → 0 < f → walk_back f null s ≡ some (tt, s)
unfolding walk_back
walk_back-null s zero left = absurd (omega arith)
walk_back-null s (suc f) left = refl

-- `ac_list_foreach` calls the action on each datum of a list of fewer than `fuel` nodes, in order, and
-- `ac_list_rev_foreach` in reverse order; neither changes the list.
pub foreach_both :
    (s : Store) (fuel : ℕ) {xs : Nodes}
    → Holds s xs
    → length xs < fuel
    → (foreach fuel s.root s ≡ some (tt, record s { calls = s.calls ++ map datum xs }))
      × (rev_foreach fuel s.root s
          ≡ some (tt, record s { calls = s.calls ++ map datum (List.reverse xs) }))
unfolding rev_foreach
foreach_both s fuel held enough =
    (foreach-data s.cell fuel s.root s.calls (Chain-Forward held) enough, back held enough)
  where
    back :
        {p : Ptr} {xs : Nodes}
        → Chain s.cell null p xs
        → length xs < fuel
        → rev_foreach fuel p s
          ≡ some (tt, record s { calls = s.calls ++ map datum (List.reverse xs) })
    back done enough = ap (λ l. some (tt, record s { calls = l })) (sym (append-nil s.calls))
    back {p} (link {n} {xs} nn at new rest) enough =
        let f = fuel - length xs - 1 in
        rw (not_null nn, last-last_addr s fuel nn at (Chain-Forward rest) (omega arith))
          (ap (λ k. walk_back k (last_addr p xs) s) (omega arith)
            ∙ walk_back-data s.cell f s.root s.calls nn at rest
            ∙ walk_back-null _ f (omega arith))
