-- ===== src/Slist/Read.antt =====
-- The functions that read a list: `ac_slist_last`, `_len`, `_find`, `_nth_data`, `_foreach`.
use libac.Prelude.Int.{ℤ}
use libac.Heap.{rounds, Ptr, load-node, not_null, null}
use libac.Heap.Nodes.{Nodes, datum, first, last_addr}
use libac.Prelude.{
  ℕ, zero, suc, ◌+◌, ◌<◌, ◌≡◌, refl, sym, ap, ◌∙◌, ◌≢◌, Bool, some, List, [], ◌∷◌, ◌++◌, map, arith,
  length, get_elem?, ◌==◌, Bool-cases, inl, inr,
}
use mathlib.Core.List.{append-nil, append_assoc}
use libac.Slist.{
  node, Cells, Store, last, len, len_from, find_custom, find, nth_from, nth_data, foreach,
}
use libac.Slist.Chain.{Chain, done, link, Holds}

pub last-last_addr :
    (s : Store) (f : ℕ) {a n : Ptr} {d : ℕ} {xs : Nodes}
    → a ≢ null
    → s.cell a ≡ some (node d n)
    → Chain s.cell null n xs
    → length xs < f
    → last f a s ≡ some (last_addr a xs, s)
unfolding last
last-last_addr s zero nn at ch fuel = absurd (omega arith)
last-last_addr s (suc f) nn at done fuel = rw (load-node s nn at)
last-last_addr s (suc f) nn at (link nn' at' new rest) fuel =
    rw (load-node s nn at, not_null nn') (last-last_addr s f nn' at' rest (omega arith))

module _ (s : Store) where
  len_from-length :
      (f l : ℕ) {p : Ptr} {xs : Nodes}
      → Chain s.cell null p xs
      → length xs < f
      → len_from f p l s ≡ some (l + length xs, s)
  unfolding len_from
  len_from-length zero l ch fuel = absurd (omega arith)
  len_from-length (suc f) l done fuel = ap (λ n. some (n, s)) (omega arith)
  len_from-length (suc f) l (link {xs} nn at new rest) fuel =
      rw (not_null nn, load-node s nn at)
        (len_from-length f (l + 1) rest (omega arith) ∙ ap (λ n. some (n, s)) (omega arith))

  find_custom-first :
      (found : ℕ → Bool) (f : ℕ) {p : Ptr} {xs : Nodes}
      → Chain s.cell null p xs
      → length xs < f
      → find_custom found f p s ≡ some (first found xs, s)
  unfolding find_custom
  find_custom-first found zero ch fuel = absurd (omega arith)
  find_custom-first found (suc f) done fuel = refl
  find_custom-first found (suc f) (link {d} nn at new rest) fuel =
      rw (not_null nn, load-node s nn at)
        (elim (Bool-cases (found d)) [
          | inl hit ↦ rw hit
          | inr miss ↦ rw miss (find_custom-first found f rest (omega arith))
        ])

  nth_from-get_elem? :
      (i : ℕ) {a n : Ptr} {d : ℕ} {xs : Nodes}
      → a ≢ null
      → s.cell a ≡ some (node d n)
      → Chain s.cell null n xs
      → nth_from i a s ≡ some (get_elem? (d ∷ map datum xs) i, s)
  unfolding nth_from
  nth_from-get_elem? zero nn at ch = rw (load-node s nn at)
  nth_from-get_elem? (suc i) nn at done = rw (load-node s nn at)
  nth_from-get_elem? (suc i) nn at (link nn' at' new rest) =
      rw (load-node s nn at, not_null nn') (nth_from-get_elem? i nn' at' rest)

  nth_data-get_elem? :
      (n : ℤ) {p : Ptr} {xs : Nodes}
      → Chain s.cell null p xs
      → nth_data p n s ≡ some (get_elem? (map datum xs) (rounds n), s)
  unfolding nth_data
  nth_data-get_elem? n done = refl
  nth_data-get_elem? n (link nn at new rest) =
      rw (not_null nn) (nth_from-get_elem? (rounds n) nn at rest)

  -- On a list of fewer than `fuel` nodes `ac_slist_len` gives their number, `ac_slist_find` and
  -- `ac_slist_find_custom` the first node that passes the test or NULL, and `ac_slist_nth_data` the
  -- datum at a position, the first datum at a negative one, or NULL past the end; none of them faults or changes the store.
  pub reads :
      (fuel : ℕ) {xs : Nodes}
      → Holds s xs
      → length xs < fuel
      → (len fuel s.root s ≡ some (length xs, s))
        × ((item : ℕ) → find fuel item s.root s ≡ some (first (λ d. d == item) xs, s))
        × ((found : ℕ → Bool) → find_custom found fuel s.root s ≡ some (first found xs, s))
        × ((n : ℤ) → nth_data s.root n s ≡ some (get_elem? (map datum xs) (rounds n), s))
  unfolding len find nth_data
  reads fuel {xs} held enough = (
    len_from-length fuel 0 held enough ∙ ap (λ n. some (n, s)) (omega arith),
    λ item. find_custom-first (λ d. d == item) fuel held enough,
    λ found. find_custom-first found fuel held enough,
    λ n. nth_data-get_elem? n held,
  )

foreach-data :
    (c : Cells) (f : ℕ) (r : Ptr) (log : List ℕ) {p : Ptr} {xs : Nodes}
    → Chain c null p xs
    → length xs < f
    → foreach f p (record { root = r; cell = c; calls = log })
      ≡ some (tt, record { root = r; cell = c; calls = log ++ map datum xs })
unfolding foreach
foreach-data c zero r log ch fuel = absurd (omega arith)
foreach-data c (suc f) r log done fuel =
    ap (λ l. some (tt, record { root = r; cell = c; calls = l })) (sym (append-nil log))
foreach-data c (suc f) r log (link {d} {xs} nn at new rest) fuel =
    rw (not_null nn, load-node (record { root = r; cell = c; calls = log }) nn at)
      (foreach-data c f r (log ++ d ∷ []) rest (omega arith)
        ∙ ap (λ l. some (tt, record { root = r; cell = c; calls = l }))
            (append_assoc log (d ∷ []) (map datum xs)))

-- On a list of fewer than `fuel` nodes `ac_slist_foreach` calls the action on each datum, in order,
-- and changes nothing.
pub foreach-calls :
    (s : Store) (fuel : ℕ) {xs : Nodes}
    → Holds s xs
    → length xs < fuel
    → foreach fuel s.root s ≡ some (tt, record s { calls = s.calls ++ map datum xs })
foreach-calls s fuel held enough = foreach-data s.cell fuel s.root s.calls held enough
