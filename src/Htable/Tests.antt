-- ===== src/Htable/Tests.antt =====
-- Runs of a table whose keys are hashed by `ac_hash_func_u32` and compared by `ac_cmp_u32`.
use libac.Prelude.{ap, true, false, ◌==◌, arith}
use libac.Misc.{hash_func_u32}
use libac.Htable.{Elem, Funcs, Table, insert, remove, foreach}
use libac.Htable.Buckets.{Lawful}
use libac.Htable.Laws.{IsTable, Removes, Inserts, new-IsTable, remove-Removes, insert-Inserts}
use libac.Htable

abbrev numbers : Funcs
numbers = record {
  hash_func = hash_func_u32;
  key_cmp = λ a b. a == b;
  free_key_func = false;
  free_data_func = true;
}

numbers-Lawful : Lawful numbers
numbers-Lawful = record {
  same_self = λ a. ground arith;
  same_sym = λ a b. ground arith;
  same_trans = λ a b c e. ground arith;
  hash_same = λ a b e. ap hash_func_u32 (ground arith);
}

abbrev one_entry : Table
one_entry = insert numbers Htable.new 5 50

one_entry-IsTable : IsTable numbers one_entry
one_entry-IsTable =
    let (valid, out) =
      insert-Inserts numbers numbers-Lawful Htable.new 5 50 (new-IsTable numbers) in
    valid

insert-Inserts_example :
    Inserts numbers numbers-Lawful one_entry 6 60 (insert numbers one_entry 6 60)
insert-Inserts_example = insert-Inserts numbers numbers-Lawful one_entry 6 60 one_entry-IsTable

remove-Removes_example : Removes numbers numbers-Lawful one_entry 5 (remove numbers one_entry 5)
remove-Removes_example = remove-Removes numbers numbers-Lawful one_entry 5 one_entry-IsTable
