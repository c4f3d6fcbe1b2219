-- ===== src/Htable/Laws.antt =====
-- The table as a finite map from keys to data.
use libac.Prelude.{
  ℕ, ◌+◌, ◌-◌, ◌%◌, ◌^◌, ◌<◌, ◌≡◌, refl, sym, ap, ◌∙◌, Bool, true, false, Bool-cases, inl, inr,
  Option, none, some, List, [], ◌∷◌, ◌==◌, if◌then◌else◌, length, arith,
}
use libac.Htable.{
  Elem, Funcs, Table, htable_sz, update, bucket_of, bucket_list_lookup, remove_from, insert, remove,
  lookup, new, foreach,
}
use libac.Htable.Count.{total, total-update, total_none, length-foreach}
use libac.Htable.Buckets.{
  Lawful, has, Distinct, removed, found-has, lookup-has, Distinct-removed, length-removed,
  lookup-removed,
}

-- No bucket holds a key twice, and `count` is the number of elements.
pub record IsTable (fn : Funcs) (h : Table) : Type 0 where
  pub distinct : (b : ℕ) → Distinct fn (h.buckets b)
  pub counted : h.count ≡ total htable_sz h.buckets % 2 ^ 64

-- `ac_htable_new` gives an empty table.
pub new-IsTable : (fn : Funcs) → IsTable fn new
unfolding new
new-IsTable fn = record { distinct = λ b. tt; counted = none_yet htable_sz }
  where
    none_yet : (n : ℕ) → 0 ≡ total n (λ b. []) % 2 ^ 64
    none_yet n = omega (arith, total_none n)

-- `ac_htable_foreach` calls the action as often as `count` says, modulo 2 ^ 64.
pub count-foreach : (fn : Funcs) (h : Table) → IsTable fn h → h.count ≡ length (foreach h) % 2 ^ 64
count-foreach fn h v = v.counted ∙ ap (λ n. n % 2 ^ 64) (sym (length-foreach h))

bucket-lt : (fn : Funcs) (k : ℕ) → bucket_of fn k < htable_sz
bucket-lt fn k = omega arith

Distinct-update :
    (fn : Funcs) (f : ℕ → List Elem) (b : ℕ) (l : List Elem)
    → ((c : ℕ) → Distinct fn (f c))
    → Distinct fn l
    → (c : ℕ) → Distinct fn (update f b l c)
Distinct-update fn f b l all own c = elim (Bool-cases (c == b)) [
  | inl here ↦ rw here own
  | inr there ↦ rw there (all c)
]

abbrev item_of : Option Elem → Option ℕ
item_of o = elim o [ none ↦ none | some e ↦ some e.item ]

abbrev pub is_some : Option ℕ → Bool
is_some o = elim o [ none ↦ false | some x ↦ true ]

item_of-if :
    (c : Bool) (o p : Option Elem)
    → item_of (if c then o else p) ≡ (if c then item_of o else item_of p)
item_of-if true o p = refl
item_of-if false o p = refl

module _ (fn : Funcs) (laws : Lawful fn) where
  open laws use {same_self, same_sym, hash_same}

  lookup-eq :
      (h : Table) (j : ℕ)
      → lookup fn h j ≡ item_of (bucket_list_lookup fn (h.buckets (bucket_of fn j)) j)
  unfolding lookup
  lookup-eq h j = refl

  abbrev Without : Table → ℕ → Bool → Table → Type 0
  Without h key ret h' =
      (ret ≡ is_some (lookup fn h key))
      × IsTable fn h'
      × ((j : ℕ) → lookup fn h' j ≡ (if fn.key_cmp key j then none else lookup fn h j))

  -- What `ac_htable_remove` of a key gives and leaves.
  abbrev pub Removes : Table → ℕ → Bool × Table → Type 0
  Removes h key run = (ret : Bool) × (h' : Table) × (run ≡ (ret, h')) × Without h key ret h'

  -- Storing a list in the bucket of a key leaves the keys of other buckets alone.
  elsewhere :
      (f : ℕ → List Elem) (key j : ℕ) (l : List Elem) (o : Option Elem)
      → bucket_list_lookup fn l j
        ≡ (if fn.key_cmp key j then o else bucket_list_lookup fn (f (bucket_of fn key)) j)
      → bucket_list_lookup fn (update f (bucket_of fn key) l (bucket_of fn j)) j
        ≡ (if fn.key_cmp key j then o else bucket_list_lookup fn (f (bucket_of fn j)) j)
  elsewhere f key j l o e = elim (Bool-cases (bucket_of fn j == bucket_of fn key)) [
    | inl here ↦
        let jb : bucket_of fn key ≡ bucket_of fn j = ground arith in
        rw here (e ∙ ap (λ b. if fn.key_cmp key j then o else bucket_list_lookup fn (f b) j) jb)
    | inr there ↦ elim (Bool-cases (fn.key_cmp key j)) [
      | inl same ↦
          let jb : bucket_of fn key ≡ bucket_of fn j =
            ap (λ x. x % htable_sz) (hash_same key j same) in
          absurd (ground arith)
      | inr other ↦ rw (there, other) refl
    ]
  ]

  count-removed :
      (f : ℕ → List Elem) (key n : ℕ)
      → n ≡ total htable_sz f % 2 ^ 64
      → (if has fn (f (bucket_of fn key)) key then (n + 2 ^ 64 - 1) % 2 ^ 64 else n)
        ≡ total htable_sz (update f (bucket_of fn key) (removed fn (f (bucket_of fn key)) key))
          % 2 ^ 64
  count-removed f key n counted =
      let b = bucket_of fn key in
      let l = removed fn (f b) key in
      let t = total-update htable_sz b f l (bucket-lt fn key) in
      elim (Bool-cases (has fn (f b) key)) [
        | inl h ↦ let len : length l + 1 ≡ length (f b) = by_has true h in rw h (omega (arith, t))
        | inr h ↦ let len : length l + 0 ≡ length (f b) = by_has false h in rw h (omega (arith, t))
      ]
    where
      by_has :
          (x : Bool)
          → has fn (f (bucket_of fn key)) key ≡ x
          → length (removed fn (f (bucket_of fn key)) key) + (if x then 1 else 0)
            ≡ length (f (bucket_of fn key))
      by_has x h =
          ap (λ y. length (removed fn (f (bucket_of fn key)) key) + (if y then 1 else 0)) (sym h)
          ∙ length-removed fn (f (bucket_of fn key)) key

  has-lookup :
      (h : Table) (key : ℕ) → has fn (h.buckets (bucket_of fn key)) key ≡ is_some (lookup fn h key)
  unfolding lookup
  has-lookup h key = elim (lookup-has fn (h.buckets (bucket_of fn key)) key) [
    | inl (e, run, has_key) ↦ has_key ∙ sym (ap (λ o. is_some (item_of o)) run)
    | inr (run, none_has) ↦ none_has ∙ sym (ap (λ o. is_some (item_of o)) run)
  ]

  remove_from-Without :
      (h : Table) (key : ℕ)
      → IsTable fn h
      → Without h key ((remove_from fn h key).0) ((remove_from fn h key).1)
  unfolding remove_from lookup
  remove_from-Without h key v =
      let b = bucket_of fn key in
      let l = h.buckets b in
      (
        found-has fn l key ∙ has-lookup h key,
        record {
          distinct =
              Distinct-update fn h.buckets b (removed fn l key) v.distinct
                (Distinct-removed fn l key (v.distinct b));
          counted =
              ap (λ x. if x then (h.count + 2 ^ 64 - 1) % 2 ^ 64 else h.count) (found-has fn l key)
              ∙ count-removed h.buckets key h.count v.counted;
        },
        λ j.
            ap item_of (
              elsewhere h.buckets key j (removed fn l key) none
                (lookup-removed fn laws l key j (v.distinct b)))
            ∙ item_of-if (fn.key_cmp key j) none
                (bucket_list_lookup fn (h.buckets (bucket_of fn j)) j),
      )

  -- `ac_htable_remove` of a key says whether the table had it and leaves the table without it; all other
  -- keys keep their data. No key stands twice and the count stays right, modulo 2 ^ 64.
  pub remove-Removes : (h : Table) (key : ℕ) → IsTable fn h → Removes h key (remove fn h key)
  unfolding remove
  remove-Removes h key v =
      ((remove_from fn h key).0, (remove_from fn h key).1, refl, remove_from-Without h key v)

  -- What `ac_htable_insert` leaves.
  abbrev pub Inserts : Table → ℕ → ℕ → Table → Type 0
  Inserts h key item h' =
      IsTable fn h'
      × ((j : ℕ) → lookup fn h' j ≡ (if fn.key_cmp key j then some item else lookup fn h j))

  abbrev put : Table → ℕ → ℕ → Table
  put t key item = record t {
    buckets =
        update t.buckets (bucket_of fn key)
          (record { key = key; item = item } ∷ t.buckets (bucket_of fn key));
    count = (t.count + 1) % 2 ^ 64;
  }

  put-Inserts :
      (t : Table) (key item : ℕ)
      → IsTable fn t
      → is_some (lookup fn t key) ≡ false
      → Inserts t key item (put t key item)
  unfolding lookup bucket_list_lookup
  put-Inserts t key item v unused =
      let b = bucket_of fn key in
      let e : Elem = record { key = key; item = item } in
      (
        record {
          distinct =
              Distinct-update fn t.buckets b (e ∷ t.buckets b) v.distinct
                (has-lookup t key ∙ unused, v.distinct b);
          counted = omega (
            arith,
            v.counted,
            total-update htable_sz b t.buckets (e ∷ t.buckets b) (bucket-lt fn key),
          );
        },
        λ j.
            ap item_of (elsewhere t.buckets key j (e ∷ t.buckets b) (some e) refl)
            ∙ item_of-if (fn.key_cmp key j) (some e)
                (bucket_list_lookup fn (t.buckets (bucket_of fn j)) j),
      )

  -- `ac_htable_insert` gives the key the data, whether or not the table had it before; all other keys
  -- keep their data. No key stands twice and the count stays right, modulo 2 ^ 64.
  pub insert-Inserts :
      (h : Table) (key item : ℕ) → IsTable fn h → Inserts h key item (insert fn h key item)
  unfolding insert
  insert-Inserts h key item v = elim (lookup-has fn (h.buckets (bucket_of fn key)) key) [
    | inr (run, none_has) ↦ rw run (put-Inserts h key item v (sym (has-lookup h key) ∙ none_has))
    | inl (e, run, has_key) ↦
        let t : Table = (let (ret, t) = remove_from fn h key in t) in
        let (ret, valid, out) = remove_from-Without h key v in
        let gone : is_some (lookup fn t key) ≡ false =
          ap is_some (out key ∙ ap (λ c. if c then none else lookup fn h key) (same_self key)) in
        let (valid', out') = put-Inserts t key item valid gone in
        rw run (valid', λ j. out' j ∙ twice _ _ (fn.key_cmp key j) item (out j))
  ]
    where
      twice :
          (o p : Option ℕ) (c : Bool) (item : ℕ)
          → o ≡ (if c then none else p)
          → (if c then some item else o) ≡ (if c then some item else p)
      twice o p true item e = refl
      twice o p false item e = e
