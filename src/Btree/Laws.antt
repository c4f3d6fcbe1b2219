-- ===== src/Btree/Laws.antt =====
-- What the manual pages say of search.h, and the operations of the tree under it.
use libac.Prelude.{◌≡◌, ◌≢◌, refl, ap, ◌∙◌, Bool, none, some, [], ◌∷◌, ◌++◌, if◌then◌else◌}
use libac.Btree.{Parent, parent, dangling, Tsearch, Btree, lookup, read_parent, remove}

-- `same a b` says that the tree's comparison gives 0. A search finds at most the datum that is the same
-- as the key; `tsearch` adds the key if there is none; `tdelete` takes the datum out, and returns the
-- parent of its node unless the node is the root.
pub record IsTsearch {K T E : Type 0} (lib : Tsearch K T E) (same : K → K → Bool) : Type 0 where
  pub find_null : (k : K) → lib.tfind k lib.null_root ≡ none
  pub root_null : lib.root_of lib.null_root ≡ none
  pub search_old : (k e : K) (t : T) → lib.tfind k t ≡ some e → lib.tsearch k t ≡ (e, t)
  pub search_new :
      (k : K) (t : T)
      → lib.tfind k t ≡ none
      → (t' : T) × (lib.tsearch k t ≡ (k, t'))
        × ((j : K) → lib.tfind j t' ≡ (if same j k then some k else lib.tfind j t))
  pub delete_root :
      (k e : K) (t : T)
      → lib.tfind k t ≡ some e
      → lib.root_of t ≡ some e
      → (t' : T) × (lib.tdelete k t ≡ (dangling, t'))
        × ((j : K) → lib.tfind j t' ≡ (if same j k then none else lib.tfind j t))
  pub delete_other :
      (k e : K) (t : T)
      → lib.tfind k t ≡ some e
      → lib.root_of t ≢ some e
      → (t' : T) × (p : K) × (lib.tdelete k t ≡ (parent p, t'))
        × ((r : K) × (lib.root_of t' ≡ some r))
        × ((j : K) → lib.tfind j t' ≡ (if same j k then none else lib.tfind j t))

module _ {K T E : Type 0} (lib : Tsearch K T E) (same : K → K → Bool) where
  -- The tree `t` without what is the same as the key
  abbrev pub Without : K → T → T → Type 0
  Without key t t' = (j : K) → lib.tfind j t' ≡ (if same j key then none else lib.tfind j t)

  -- What is left of a tree when the datum `e` has been taken out and passed to `free_node`
  abbrev pub less : Btree K T → K → T → Btree K T
  less tree e t' = record { rootp = t'; freed = tree.freed ++ e ∷ [] }

  remove_run :
      (tree : Btree K T) (key e : K) (p : Parent K) (t' : T)
      → lib.tfind key tree.rootp ≡ some e
      → lib.tdelete key tree.rootp ≡ (p, t')
      → remove lib tree key ≡ read_parent lib p (less tree e t')
  unfolding remove lookup
  remove_run tree key e p t' found gone =
      rw (remove, found) (ap (λ r. read_parent lib (r.0) (less tree e (r.1))) gone)

  read_parent-parent :
      (p r : K) (u : Btree K T)
      → lib.root_of u.rootp ≡ some r
      → read_parent lib (parent p) u ≡ some (some p, u)
  unfolding read_parent
  read_parent-parent p r u left = rw (read_parent, left) refl

  -- `ac_btree_remove` of a key whose node is not the root passes the datum to `free_node`, once, and
  -- returns the datum of the node's parent; no search finds the key any more, and the others go on as
  -- before.
  pub remove-Without :
      (tree : Btree K T) (key e : K)
      → IsTsearch lib same
      → lookup lib tree key ≡ some e
      → lib.root_of tree.rootp ≢ some e
      → (t' : T) × (p : K) × (remove lib tree key ≡ some (some p, less tree e t'))
        × Without key tree.rootp t'
  unfolding lookup
  remove-Without tree key e laws found other =
      let (t', p, gone, (r, left), without) = laws.delete_other key e tree.rootp found other in
      (
        t',
        p,
        remove_run tree key e (parent p) t' found gone
            ∙ read_parent-parent p r (less tree e t') left,
        without,
      )
