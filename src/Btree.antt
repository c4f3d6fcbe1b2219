-- ===== src/Btree.antt =====
-- src/ac_btree.c: a binary tree over the functions of search.h.
--
-- Those functions are the fields of `Tsearch`, at the comparison that the tree was made with: for data
-- of type `K`, and with `T` for what `rootp` points to. A pointer to a node is the datum that its first
-- word points to. `freed` lists the data that were passed to `free_node`, in order. `none` is a read
-- through a pointer that must not be read.
pub mod Laws
pub mod Lists
mod Tests
use libac.Prelude.{Bool, true, false, Option, none, some, List, [], ◌∷◌, ◌++◌}

-- What `tdelete` returns: NULL, the parent of the deleted node, or, if that was the root, "a dangling
-- pointer that must not be accessed".
pub data Parent (K : Type 0) : Type 0 where
  no_node : Parent K
  parent : K → Parent K
  dangling : Parent K

pub record Tsearch (K T E : Type 0) : Type 0 where
  pub null_root : T
  pub root_of : T → Option K
  pub tfind : K → T → Option K
  pub tsearch : K → T → K × T
  pub tdelete : K → T → Parent K × T
  pub tdestroy : T → List K
  pub twalk : T → List E

-- `ac_btree_t`
pub record Btree (K T : Type 0) : Type 0 where
  pub rootp : T
  pub freed : List K

module _ {K T E : Type 0} (lib : Tsearch K T E) where
  -- `ac_btree_new`
  unfoldable pub new : Btree K T
  new = record { rootp = lib.null_root; freed = [] }

  -- `ac_btree_lookup`
  unfoldable pub lookup : Btree K T → K → Option K
  lookup tree key = lib.tfind key tree.rootp

  -- `ac_btree_add`
  unfoldable pub add : Btree K T → K → K × Btree K T
  add tree key = let (k, t) = lib.tsearch key tree.rootp in (k, record tree { rootp = t })

  -- `ac_btree_is_empty`
  unfoldable pub is_empty : Btree K T → Bool
  is_empty tree = elim (lib.root_of tree.rootp) [ none ↦ true | some k ↦ false ]

  -- The end of `ac_btree_remove`
  unfoldable pub read_parent : Parent K → Btree K T → Option (Option K × Btree K T)
  read_parent no_node tree = some (none, tree)
  read_parent (parent k) tree = elim (lib.root_of tree.rootp) [
    | none ↦ some (none, tree)
    | some r ↦ some (some k, tree)
  ]
  read_parent dangling tree = elim (lib.root_of tree.rootp) [
    | none ↦ some (none, tree)
    | some r ↦ none
  ]

  -- `ac_btree_remove`
  unfoldable pub remove : Btree K T → K → Option (Option K × Btree K T)
  unfolding lookup read_parent
  remove tree key = elim (lookup tree key) [
    | none ↦ some (none, tree)
    | some node ↦
        let (pnode, t) = lib.tdelete key tree.rootp in
        read_parent pnode (record { rootp = t; freed = tree.freed ++ node ∷ [] })
  ]

  -- `ac_btree_foreach` and `ac_btree_foreach_data`, as the calls of `action`
  unfoldable pub foreach : Btree K T → List E
  foreach tree = lib.twalk tree.rootp

  -- `ac_btree_destroy`, as the calls of `free_node`; the tree may be NULL.
  unfoldable pub destroy : Option (Btree K T) → List K
  destroy none = []
  destroy (some tree) = tree.freed ++ lib.tdestroy tree.rootp
