-- ===== src/Quark/Laws.antt =====
-- The quarks as the list of their strings.
use mathlib.Core.Path.{transport}
use libac.Prelude.{
  ℕ, ◌+◌, ◌-◌, ◌^◌, ◌<◌, ◌≡◌, refl, sym, ap, ◌∙◌, Bool, false, Bool-cases, inl, inr, Option, none,
  some, List, [], ◌∷◌, ◌++◌, ltb, leb, if◌then◌else◌, if_true, if_false, get_elem?, take, length,
  length-append, arith,
}
use libac.Prelude.Int.{ℤ, pos, negsuc, sub_ℕ, ◌+ℤ◌}
use libac.Str.{Str, same_str}
use libac.Btree
use libac.Btree.{Tsearch, Btree}
use libac.Btree.Laws.{IsTsearch}
use libac.Quark.{QuarkNode, Quark, quark_compar, above, to_string, init, add_new, from_string}
use libac.Quark.Names.{
  numbered, node_of, place, with_name, node_of-numbered, get_elem?-numbered, numbered-append,
  node_of-append, take-numbered, get_elem?_out, get_elem?_in, same_str-≡, place-append,
}

-- The quarks stand for the strings: the array holds their nodes, `last` is the number of the last, and a
-- search in the tree finds the first node with a string.
pub record IsQuark {T E : Type 0} (lib : Tsearch QuarkNode T E) (q : Quark T) (names : List Str)
    : Type 0 where
  pub nodes : q.quarks ≡ numbered 0 names
  pub last_is : q.last ≡ sub_ℕ (length names) 1
  pub finds : (n : QuarkNode) → Btree.lookup lib q.qt n ≡ node_of n.string (numbered 0 names)

above_last : (n i : ℕ) → above (pos i) (sub_ℕ n 1) ≡ leb n i
above_last n i = ground arith

to_string_run :
    {T : Type 0} (qt : Btree QuarkNode T) (names : List Str) (i : ℕ)
    → to_string
        (record { qt = qt; quarks = numbered 0 names; last = sub_ℕ (length names) 1 })
        (pos i)
      ≡ some (get_elem? names i)
unfolding to_string
to_string_run qt names i = elim (Bool-cases (leb (length names) i)) [
  | inl out ↦
      rw (above_last (length names) i, out) (ap some (sym (get_elem?_out names i (ground arith))))
  | inr inside ↦
      let (s, at) = get_elem?_in names i (ground arith) in
      rw (above_last (length names) i, inside, get_elem?-numbered 0 i names, at) refl
]

above-negative : (m n : ℕ) → above (negsuc n) (sub_ℕ m 1) ≡ false
above-negative m n = ground arith

to_string_negative :
    {T : Type 0} (qt : Btree QuarkNode T) (names : List Str) (n : ℕ)
    → to_string
        (record { qt = qt; quarks = numbered 0 names; last = sub_ℕ (length names) 1 })
        (negsuc n)
      ≡ none
unfolding to_string
to_string_negative qt names n = rw (above-negative (length names) n) refl

next : (n : ℕ) → sub_ℕ n 1 +ℤ pos 1 ≡ pos n
unfolding ◌+ℤ◌
next n = ground arith

kept_old :
    (o : Option QuarkNode) (n : QuarkNode) {b : Bool}
    → b ≡ false
    → ◌≡◌ {A = Option QuarkNode} o (elim o [ some m ↦ some m | none ↦ if b then some n else none ])
kept_old none n miss = sym (if_false _ _ miss)
kept_old (some m) n miss = refl

-- The tree with a new string finds what the array with it holds.
finds_new :
    (s x : Str) (names : List Str)
    → node_of s (numbered 0 names) ≡ none
    → (if same_str x s
        then some (record { id = pos (length names); string = s })
        else node_of x (numbered 0 names))
      ≡ node_of x (numbered 0 (names ++ s ∷ []))
finds_new s x names absent =
    let n : QuarkNode = record { id = pos (0 + length names); string = s } in
    let whole =
      ap (node_of x) (numbered-append 0 names s) ∙ node_of-append x (numbered 0 names) n in
    elim (Bool-cases (same_str x s)) [
      | inl hit ↦
          let gone : node_of x (numbered 0 names) ≡ none =
            ap (λ y. node_of y (numbered 0 names)) (same_str-≡ x s hit) ∙ absent in
          if_true _ _ hit
          ∙ ap (λ k. some (record { id = pos k; string = s })) {x = length names}
              {y = 0 + length names} (omega arith)
          ∙ sym (whole ∙ rw (gone, hit) refl)
      | inr miss ↦ if_false _ _ miss ∙ kept_old (node_of x (numbered 0 names)) n miss ∙ sym whole
    ]

module _ {T E : Type 0} (lib : Tsearch QuarkNode T E) where
  -- `ac_quark_to_string` gives the string at a number from 0 on, and NULL past the last; with a negative
  -- number it reads outside the array.
  pub to_string-names :
      (q : Quark T) (names : List Str)
      → IsQuark lib q names
      → ((i : ℕ) → to_string q (pos i) ≡ some (get_elem? names i))
        × ((n : ℕ) → to_string q (negsuc n) ≡ none)
  to_string-names q names v = (
    λ k.
        (λ i. to_string (record { qt = q.qt; quarks = v.nodes i; last = v.last_is i }) (pos k))
        ∙ to_string_run q.qt names k,
    λ k.
        (λ i. to_string (record { qt = q.qt; quarks = v.nodes i; last = v.last_is i }) (negsuc k))
        ∙ to_string_negative q.qt names k,
  )

  -- What a call leaves: the number of the string, and quarks for the strings with this one added if
  -- it is new
  abbrev pub Interns : Str → List Str → Option (ℤ × Quark T) → Type 0
  Interns s names run =
      (q' : Quark T) × (run ≡ some (pos (place s (with_name s names)), q'))
      × IsQuark lib q' (with_name s names)

  pub init-IsQuark : IsTsearch lib quark_compar → IsQuark lib (init lib) []
  unfolding init Btree.new Btree.lookup
  init-IsQuark laws = record { nodes = refl; last_is = refl; finds = λ n. laws.find_null n }

  abbrev added : Quark T → Str → ℕ → T → Quark T
  added q s n t' = record {
    qt = record (q.qt) { rootp = t' };
    quarks = take n q.quarks ++ record { id = pos n; string = s } ∷ [];
    last = pos n;
  }

  add_new_run :
      (q : Quark T) (s : Str) (n : ℕ) (t' : T)
      → lib.tsearch (record { id = pos n; string = s }) q.qt.rootp
        ≡ (record { id = pos n; string = s }, t')
      → n < 2 ^ 31 - 1
      → add_new lib q s (pos n) ≡ some (pos n, added q s n t')
  unfolding add_new Btree.add
  add_new_run q s n t' search small =
      let fits : above (pos n) (pos (2 ^ 31 - 2)) ≡ false = ground arith in
      rw fits (ap (λ (r : QuarkNode × T). some (pos n, added q s n (r.1))) search)

  from_string_new :
      (q : Quark T) (s : Str) (names : List Str)
      → IsTsearch lib quark_compar
      → IsQuark lib q names
      → length names < 2 ^ 31 - 1
      → node_of s (numbered 0 names) ≡ none
      → (q' : Quark T) × (from_string lib q s ≡ some (pos (length names), q'))
        × IsQuark lib q' (names ++ s ∷ [])
  unfolding from_string quark_compar Btree.lookup
  from_string_new q s names laws v small absent =
      let n = length names in
      let qn : QuarkNode = record { id = pos n; string = s } in
      let key : QuarkNode = record { id = pos 0; string = s } in
      let (t', search, found) = laws.search_new qn q.qt.rootp (v.finds qn ∙ absent) in
      (
        added q s n t',
        rw (from_string, v.finds key, absent) refl
            ∙ ap (add_new lib q s) (ap (λ l. l +ℤ pos 1) v.last_is ∙ next n)
            ∙ add_new_run q s n t' search small,
        record {
          nodes =
              ap (λ ns. take n ns ++ qn ∷ []) v.nodes
              ∙ ap (λ ns. ns ++ qn ∷ []) (take-numbered 0 names)
              ∙ ap (λ k. numbered 0 names ++ record { id = pos k; string = s } ∷ []) {x = n}
                  {y = 0 + n} (omega arith)
              ∙ sym (numbered-append 0 names s);
          last_is = ground (arith, length-append names (s ∷ []));
          finds = λ x.
              found x
              ∙ ap (λ o. if same_str x.string s then some qn else o) (v.finds x)
              ∙ finds_new s x.string names absent;
        },
      )

  -- `ac_quark_from_string`, while there are fewer than 2 ^ 31 - 1 strings, gives the place of the string
  -- among those it has seen, where a new one comes last, and keeps the places of the others.
  pub from_string-Interns :
      (q : Quark T) (s : Str) (names : List Str)
      → IsTsearch lib quark_compar
      → IsQuark lib q names
      → length names < 2 ^ 31 - 1
      → Interns s names (from_string lib q s)
  unfolding from_string Btree.lookup
  from_string-Interns q s names laws v small =
      elim (Bool-cases (ltb (place s names) (length names))) [
        | inl old ↦
            let key : QuarkNode = record { id = pos 0; string = s } in
            let found : node_of s (numbered 0 names)
                ≡ some (record { id = pos (place s names); string = s }) =
              node_of-numbered s 0 names
              ∙ if_true _ _ old
              ∙ ap (λ k. some (record { id = pos k; string = s })) {x = 0 + place s names}
                  {y = place s names} (omega arith) in
            as_names (sym (if_true _ _ old)) (q, rw (from_string, v.finds key, found) refl, v)
        | inr new ↦
            let absent : node_of s (numbered 0 names) ≡ none =
              node_of-numbered s 0 names ∙ if_false _ _ new in
            let (q', run, v') = from_string_new q s names laws v small absent in
            as_names (sym (if_false _ _ new))
              (q', run ∙ ap (λ k. some (pos k, q')) (sym (place-append s names new)), v')
      ]
    where
      as_names :
          {names' : List Str}
          → names' ≡ with_name s names
          → (q' : Quark T) × (from_string lib q s ≡ some (pos (place s names'), q'))
            × IsQuark lib q' names'
          → Interns s names (from_string lib q s)
      as_names e x =
          transport
            (λ i.
              (q' : Quark T) × (from_string lib q s ≡ some (pos (place s (e i)), q'))
              × IsQuark lib q' (e i))
            x
