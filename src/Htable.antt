-- ===== src/Htable.antt =====
-- src/ac_htable.c: a hash table of 2048 buckets.
--
-- A bucket is the list of its elements, which the code keeps in nodes of ac_slist.c. `hash_func` and
-- `key_cmp` are arguments, the latter as the test for 0. Freeing is the list of the calls of
-- `free_key_func` and `free_data_func`, of which either may be NULL.
pub mod Buckets
pub mod Count
pub mod Laws
mod Tests
use libac.Prelude.{
  ℕ, zero, suc, ◌+◌, ◌-◌, ◌%◌, ◌^◌, Bool, true, false, Option, none, some, List, [], ◌∷◌, ◌++◌,
  ◌==◌, if◌then◌else◌,
}

-- `struct bucket_list_elem`
pub record Elem : Type 0 where
  pub key : ℕ
  pub item : ℕ

-- A call of one of the free functions
pub data Freed : Type 0 where
  freed_key freed_data : ℕ → Freed

-- The functions of `ac_htable_t`; the last two say whether the free functions are given.
pub record Funcs : Type 0 where
  pub hash_func : ℕ → ℕ
  pub key_cmp : ℕ → ℕ → Bool
  pub free_key_func : Bool
  pub free_data_func : Bool

-- The state of `ac_htable_t`
pub record Table : Type 0 where
  pub buckets : ℕ → List Elem
  pub count : ℕ
  pub freed : List Freed

abbrev pub htable_sz : ℕ
htable_sz = 2048

abbrev pub update : (ℕ → List Elem) → ℕ → List Elem → ℕ → List Elem
update f b l i = if i == b then l else f i

-- `ac_htable_new`
unfoldable pub new : Table
new = record { buckets = λ b. []; count = 0; freed = [] }

module _ (fn : Funcs) where
  -- The bucket of a key
  abbrev pub bucket_of : ℕ → ℕ
  bucket_of key = fn.hash_func key % htable_sz

  unfoldable pub bucket_list_lookup : List Elem → ℕ → Option Elem
  bucket_list_lookup [] key = none
  bucket_list_lookup (e ∷ list) key =
      let rest = bucket_list_lookup list key in if fn.key_cmp e.key key then some e else rest

  -- The calls of the free functions for an element
  abbrev pub free_elem : Elem → List Freed
  free_elem e =
      (if fn.free_key_func then freed_key e.key ∷ [] else [])
      ++ (if fn.free_data_func then freed_data e.item ∷ [] else [])

  -- The result, the list that is left, and the calls
  unfoldable pub bucket_list_remove : List Elem → ℕ → Bool × List Elem × List Freed
  bucket_list_remove [] key = (false, [], [])
  bucket_list_remove (e ∷ list) key =
      let (ret, left, calls) = bucket_list_remove list key in
      if fn.key_cmp e.key key then (true, list, free_elem e) else (ret, e ∷ left, calls)

  -- `bucket_list_remove(htable, &htable->buckets[bucket], key)` and `htable->count--` if it found
  -- one, in `ac_htable_insert` and `ac_htable_remove`
  unfoldable pub remove_from : Table → ℕ → Bool × Table
  unfolding bucket_list_remove
  remove_from h key =
      let (ret, left, calls) = bucket_list_remove (h.buckets (bucket_of key)) key in
      (
        ret,
        record {
          buckets = update h.buckets (bucket_of key) left;
          count = if ret then (h.count + 2 ^ 64 - 1) % 2 ^ 64 else h.count;
          freed = h.freed ++ calls;
        },
      )

  -- `ac_htable_insert`
  unfoldable pub insert : Table → ℕ → ℕ → Table
  unfolding bucket_list_lookup remove_from
  insert h key item =
      let h' : Table = elim (bucket_list_lookup (h.buckets (bucket_of key)) key) [
        | none ↦ h
        | some e ↦ (let (ret, t) = remove_from h key in t)
      ] in
      record h' {
        buckets =
            update h'.buckets (bucket_of key)
              (record { key = key; item = item } ∷ h'.buckets (bucket_of key));
        count = (h'.count + 1) % 2 ^ 64;
      }

  -- `ac_htable_remove`
  unfoldable pub remove : Table → ℕ → Bool × Table
  unfolding remove_from
  remove h key = remove_from h key

  -- `ac_htable_lookup`
  unfoldable pub lookup : Table → ℕ → Option ℕ
  unfolding bucket_list_lookup
  lookup h key = elim (bucket_list_lookup (h.buckets (bucket_of key)) key) [
    | none ↦ none
    | some e ↦ some e.item
  ]

-- The loop of `ac_htable_foreach` from a bucket on, as the list of the elements passed to `action`
unfoldable pub foreach_from : Table → ℕ → ℕ → List Elem
foreach_from h zero bucket = []
foreach_from h (suc left) bucket = h.buckets bucket ++ foreach_from h left (bucket + 1)

-- `ac_htable_foreach`
unfoldable pub foreach : Table → List Elem
unfolding foreach_from
foreach h = foreach_from h htable_sz 0

unfoldable pub free_all : Funcs → List Elem → List Freed
free_all fn [] = []
free_all fn (e ∷ l) = free_elem fn e ++ free_all fn l

-- `ac_htable_destroy`, as the calls of the free functions: for each element in the order of
-- `ac_htable_foreach`
unfoldable pub destroy : Funcs → Table → List Freed
unfolding free_all foreach
destroy fn h = free_all fn (foreach h)
