-- ===== src/Btree/Lists.antt =====
-- A list as the tree, for the runs: the functions of search.h on the list of its data.
use libac.Prelude.{
  ◌≡◌, ◌≢◌, refl, sym, ap, ◌∙◌, Bool, true, Bool-cases, Option, none, some, List, [], ◌∷◌, ◌++◌,
  if◌then◌else◌, if_true, arith, inl, inr,
}
use libac.Btree.{Parent, no_node, parent, dangling, Tsearch}
use libac.Btree.Laws.{IsTsearch}

module _ {K : Type 0} (same : K → K → Bool) where
  abbrev find_in : K → List K → Option K
  find_in k [] = none
  find_in k (x ∷ t) = if same k x then some x else find_in k t

  abbrev without : K → List K → List K
  without k [] = []
  without k (x ∷ t) = if same k x then without k t else x ∷ without k t

  abbrev head_of : List K → Option K
  head_of [] = none
  head_of (x ∷ t) = some x

  abbrev delete : K → List K → Parent K × List K
  delete k [] = (no_node, [])
  delete k (x ∷ t) = if same k x then (dangling, without k t) else (parent x, x ∷ without k t)

  abbrev pub lists : Tsearch K (List K) K
  lists = record {
    null_root = [];
    root_of = head_of;
    tfind = find_in;
    tsearch = λ k t. elim (find_in k t) [ some e ↦ (e, t) | none ↦ (k, t ++ k ∷ []) ];
    tdelete = delete;
    tdestroy = λ t. t;
    twalk = λ t. t;
  }

  find_in-same : (k e : K) (t : List K) → find_in k t ≡ some e → same k e ≡ true
  find_in-same k e [] h = cc
  find_in-same k e (x ∷ t) h = elim (Bool-cases (same k x)) [
    | inl hit ↦ ground (arith, hit)
    | inr miss ↦ find_in-same k e t (ground (arith, miss))
  ]

  module _ (swap : (a b : K) → same a b ≡ same b a)
      (cong : (a b c : K) → same a b ≡ true → same a c ≡ same b c) where
    find_in-without :
        (j k : K) (t : List K) → find_in j (without k t) ≡ (if same j k then none else find_in j t)
    find_in-without j k [] = ground arith
    find_in-without j k (x ∷ t) =
        ground (arith, find_in-without j k t, swap j k, swap j x, swap k x, cong k x j, cong j k x)

    find_in-append :
        (j k : K) (t : List K)
        → find_in k t ≡ none
        → find_in j (t ++ k ∷ []) ≡ (if same j k then some k else find_in j t)
    find_in-append j k [] h = refl
    find_in-append j k (x ∷ t) h =
        ground (arith, find_in-append j k t, swap j k, swap j x, swap k x, cong k x j, cong j k x)

    delete-root :
        (k e : K) (t : List K)
        → find_in k t ≡ some e
        → head_of t ≡ some e
        → (t' : List K) × (delete k t ≡ (dangling, t'))
          × ((j : K) → find_in j t' ≡ (if same j k then none else find_in j t))
    delete-root k e [] found root = absurd cc
    delete-root k e (x ∷ t) found root =
        let is : x ≡ e = cc in
        let hit : same k x ≡ true = ap (same k) is ∙ find_in-same k e (x ∷ t) found in
        (
          without k t,
          rw hit refl,
          λ j.
              ap (λ b. find_in j (if b then without k t else x ∷ without k t)) (sym hit)
              ∙ find_in-without j k (x ∷ t),
        )

    delete-other :
        (k e : K) (t : List K)
        → find_in k t ≡ some e
        → head_of t ≢ some e
        → (t' : List K) × (p : K) × (delete k t ≡ (parent p, t'))
          × ((r : K) × (head_of t' ≡ some r))
          × ((j : K) → find_in j t' ≡ (if same j k then none else find_in j t))
    delete-other k e [] found other = absurd cc
    delete-other k e (x ∷ t) found other = elim (Bool-cases (same k x)) [
      | inl hit ↦ absurd (other (sym (if_true _ _ hit) ∙ found))
      | inr miss ↦ (
        x ∷ without k t,
        x,
        rw miss refl,
        (x, refl),
        λ j.
            ap (λ b. find_in j (if b then without k t else x ∷ without k t)) (sym miss)
            ∙ find_in-without j k (x ∷ t),
      )
    ]

    pub lists-IsTsearch : IsTsearch lists same
    lists-IsTsearch = record {
      find_null = λ k. refl;
      root_null = refl;
      search_old = λ k e t found. rw (lists, found) refl;
      search_new =
          λ k t absent. (t ++ k ∷ [], rw (lists, absent) refl, λ j. find_in-append j k t absent);
      delete_root = delete-root;
      delete_other = delete-other;
    }
