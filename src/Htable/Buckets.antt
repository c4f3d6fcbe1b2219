-- ===== src/Htable/Buckets.antt =====
-- One bucket: finding and removing an element.
use libac.Prelude.{
  ℕ, ◌+◌, ◌≡◌, ◌⊎◌, refl, sym, ◌∙◌, Bool, true, false, ◌||◌, Bool-cases, inl, inr, none, some, List,
  [], ◌∷◌, if◌then◌else◌, length, arith,
}
use libac.Htable.{Elem, Funcs, bucket_list_lookup, bucket_list_remove}

-- What the table relies on: the comparison is an equivalence that the hash function respects.
pub record Lawful (fn : Funcs) : Type 0 where
  pub same_self : (a : ℕ) → fn.key_cmp a a ≡ true
  pub same_sym : (a b : ℕ) → fn.key_cmp a b ≡ fn.key_cmp b a
  pub same_trans : (a b c : ℕ) → fn.key_cmp a b ≡ true → fn.key_cmp b c ≡ fn.key_cmp a c
  pub hash_same : (a b : ℕ) → fn.key_cmp a b ≡ true → fn.hash_func a ≡ fn.hash_func b

module _ (fn : Funcs) where
  abbrev pub has : List Elem → ℕ → Bool
  has [] k = false
  has (e ∷ l) k = fn.key_cmp e.key k || has l k

  -- No two elements have the same key.
  abbrev pub Distinct : List Elem → Type 0
  Distinct [] = Unit
  Distinct (e ∷ l) = (has l e.key ≡ false) × Distinct l

  abbrev pub removed : List Elem → ℕ → List Elem
  removed l k = let (ret, left, calls) = bucket_list_remove fn l k in left

  abbrev pub found : List Elem → ℕ → Bool
  found l k = let (ret, left, calls) = bucket_list_remove fn l k in ret

  removed-hit :
      (e : Elem) (l : List Elem) (k : ℕ) → fn.key_cmp e.key k ≡ true → removed (e ∷ l) k ≡ l
  unfolding bucket_list_remove
  removed-hit e l k hit = rw (removed, hit) refl

  removed-miss :
      (e : Elem) (l : List Elem) (k : ℕ)
      → fn.key_cmp e.key k ≡ false
      → removed (e ∷ l) k ≡ e ∷ removed l k
  unfolding bucket_list_remove
  removed-miss e l k miss = rw (removed, miss) refl

  pub found-has : (l : List Elem) (k : ℕ) → found l k ≡ has l k
  unfolding bucket_list_remove
  found-has [] k = refl
  found-has (e ∷ l) k = ground (arith, found-has l k)

  pub lookup-has :
      (l : List Elem) (k : ℕ)
      → ((e : Elem) × (bucket_list_lookup fn l k ≡ some e) × (has l k ≡ true))
        ⊎ ((bucket_list_lookup fn l k ≡ none) × (has l k ≡ false))
  unfolding bucket_list_lookup
  lookup-has [] k = inr (refl, refl)
  lookup-has (e ∷ l) k = elim (Bool-cases (fn.key_cmp e.key k)) [
    | inl hit ↦ inl (e, rw hit refl, rw hit refl)
    | inr miss ↦ elim (lookup-has l k) [
      | inl (e', run, h) ↦ inl (e', rw miss run, rw miss h)
      | inr (run, h) ↦ inr (rw miss run, rw miss h)
    ]
  ]

  has-removed : (l : List Elem) (k j : ℕ) → has l j ≡ false → has (removed l k) j ≡ false
  unfolding bucket_list_remove
  has-removed [] k j h = refl
  has-removed (e ∷ l) k j h = elim (Bool-cases (fn.key_cmp e.key k)) [
    | inl hit ↦ rw (removed-hit e l k hit) (ground arith)
    | inr miss ↦ rw (removed-miss e l k miss) (ground (arith, has-removed l k j))
  ]

  pub Distinct-removed : (l : List Elem) (k : ℕ) → Distinct l → Distinct (removed l k)
  unfolding bucket_list_remove
  Distinct-removed [] k d = tt
  Distinct-removed (e ∷ l) k (own, d) = elim (Bool-cases (fn.key_cmp e.key k)) [
    | inl hit ↦ rw (removed-hit e l k hit) d
    | inr miss ↦ rw (removed-miss e l k miss) (has-removed l k e.key own, Distinct-removed l k d)
  ]

  pub length-removed :
      (l : List Elem) (k : ℕ) → length (removed l k) + (if has l k then 1 else 0) ≡ length l
  unfolding bucket_list_remove
  length-removed [] k = refl
  length-removed (e ∷ l) k = elim (Bool-cases (fn.key_cmp e.key k)) [
    | inl hit ↦ rw (removed-hit e l k hit, hit) (omega arith)
    | inr miss ↦ rw (removed-miss e l k miss, miss) (omega (arith, length-removed l k))
  ]

  module _ (laws : Lawful fn) where
    open laws use {same_sym, same_trans}

    -- A key that is the same as another is in the list with it.
    has-same : (l : List Elem) (a b : ℕ) → fn.key_cmp a b ≡ true → has l a ≡ has l b
    has-same [] a b e = refl
    has-same (x ∷ l) a b e =
        ground (arith, has-same l a b e, same_trans a b x.key e, same_sym x.key a, same_sym x.key b)

    lookup-none : (l : List Elem) (k : ℕ) → has l k ≡ false → bucket_list_lookup fn l k ≡ none
    lookup-none l k h = elim (lookup-has l k) [
      | inl (e, run, h') ↦ absurd (ground arith)
      | inr (run, h') ↦ run
    ]

    pub lookup-removed :
        (l : List Elem) (k j : ℕ)
        → Distinct l
        → bucket_list_lookup fn (removed l k) j
          ≡ (if fn.key_cmp k j then none else bucket_list_lookup fn l j)
    unfolding bucket_list_lookup bucket_list_remove
    lookup-removed [] k j d = ground arith
    lookup-removed (e ∷ l) k j (own, d) = elim (Bool-cases (fn.key_cmp e.key k)) [
      | inl hit ↦ elim (Bool-cases (fn.key_cmp k j)) [
        | inl same ↦
            let ej : fn.key_cmp e.key j ≡ true = sym (same_trans e.key k j hit) ∙ same in
            rw (removed-hit e l k hit, same) (lookup-none l j (sym (has-same l e.key j ej) ∙ own))
        | inr other ↦
            let ej : fn.key_cmp e.key j ≡ false = sym (same_trans e.key k j hit) ∙ other in
            rw (removed-hit e l k hit, other, ej) refl
      ]
      | inr miss ↦ elim (Bool-cases (fn.key_cmp e.key j)) [
        | inl same ↦
            let kj : fn.key_cmp k j ≡ false = same_sym k j ∙ same_trans e.key j k same ∙ miss in
            rw (removed-miss e l k miss, same, kj) refl
        | inr other ↦ rw (removed-miss e l k miss, other) (lookup-removed l k j d)
      ]
    ]
