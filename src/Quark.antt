-- ===== src/Quark.antt =====
-- src/ac_quark.c: numbers for strings, over the tree of src/ac_btree.c.
--
-- The tree and the array `quarks` hold the same nodes; no function changes a node. `quarks` is the array
-- up to `last`. `none` is a read outside it and an overflow of the `int` `last`. The functions of
-- search.h are an argument.
pub mod Names
pub mod Laws
pub mod Runs
mod Tests
use libac.Prelude.{
  ℕ, ◌+◌, ◌-◌, ◌^◌, Bool, Option, none, some, List, [], ◌∷◌, ◌++◌, ltb, if◌then◌else◌, get_elem?,
  take,
}
use libac.Prelude.Int.{ℤ, pos, negsuc, pos_part, neg_part, ◌+ℤ◌}
use libac.Str.{Str, same_str}
use libac.Btree
use libac.Btree.{Tsearch, Btree}

-- `struct quark_node`
pub record QuarkNode : Type 0 where
  pub id : ℤ
  pub string : Str

-- `ac_quark_t`
pub record Quark (T : Type 0) : Type 0 where
  pub qt : Btree QuarkNode T
  pub quarks : List QuarkNode
  pub last : ℤ

-- `quark_compar`, as the test for 0
unfoldable pub quark_compar : QuarkNode → QuarkNode → Bool
quark_compar a b = same_str a.string b.string

-- `a > b`
abbrev pub above : ℤ → ℤ → Bool
above a b = ltb (pos_part b + neg_part a) (pos_part a + neg_part b)

-- `ac_quark_to_string`; the inner `none` is NULL.
unfoldable pub to_string : {T : Type 0} → Quark T → ℤ → Option (Option Str)
to_string quark id = if above id quark.last then some none else elim id [
  | negsuc n ↦ none
  | pos i ↦ elim (get_elem? quark.quarks i) [ none ↦ none | some qn ↦ some (some qn.string) ]
]

module _ {T E : Type 0} (lib : Tsearch QuarkNode T E) where
  -- `ac_quark_init`
  unfoldable pub init : Quark T
  init = record { qt = Btree.new lib; quarks = []; last = negsuc 0 }

  -- The part of `ac_quark_from_string` for a new string: `last` is `++quark->last`, and `last + 1`,
  -- the number of pointers, is an `int` too.
  unfoldable pub add_new : Quark T → Str → ℤ → Option (ℤ × Quark T)
  add_new quark str last =
      let qn : QuarkNode = record { id = last; string = str } in
      let (node, qt) = Btree.add lib quark.qt qn in
      if above last (pos (2 ^ 31 - 2))
      then none
      else some (
        last,
        record { qt = qt; quarks = take (pos_part last) quark.quarks ++ qn ∷ []; last = last },
      )

  -- `ac_quark_from_string`
  unfoldable pub from_string : Quark T → Str → Option (ℤ × Quark T)
  unfolding add_new
  from_string quark str = elim (Btree.lookup lib quark.qt (record { id = pos 0; string = str })) [
    | some qn ↦ some (qn.id, quark)
    | none ↦ add_new quark str (quark.last +ℤ pos 1)
  ]
