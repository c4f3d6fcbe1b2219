-- ===== src/CircBuf/Tests.antt =====
-- Runs of the circular buffer on small arrays.
use libac.Prelude.{
  ◌≡◌, refl, true, false, ◌++◌, inr, none, some, [], ◌∷◌, arith, ◌⊎◌, ◌^◌, length, ◌≤◌, ◌+◌, ◌/◌,
}
use libac.Prelude.Int.{pos, negsuc}
use libac.CircBuf.{CircBuf, cpy_buf, new, push, pushm, popm, foreach}
use libac.CircBuf.Valid.{IsValid, contents}
use libac.CircBuf.Window.{split}
use libac.CircBuf.Push.{Leaves}
use libac.CircBuf.Pushm.{takes, pushm-Leaves, pushm_full_loses}
use libac.CircBuf.Foreach.{foreach-contents}
use libac.CircBuf.Pop.{Pops, popm_lem}
use libac.CircBuf.New.{new-IsValid, push-zero_size}
use libac.CircBuf.Run.{put, get, run, spec_run, run_refines}

-- Four slots of two bytes, the items in the last slot and the first.
abbrev wrapped : CircBuf
wrapped = record {
  buf = 30 ∷ 31 ∷ 0 ∷ 0 ∷ 0 ∷ 0 ∷ 20 ∷ 21 ∷ [];
  head = 2;
  tail = 6;
  size = 4;
  elem_sz = 2;
  type = cpy_buf;
}

wrapped-IsValid : IsValid wrapped
wrapped-IsValid = record {
  k = 1;
  n = 2;
  h = 1;
  t = 3;
  elem_pow = refl;
  size_pow = refl;
  fits = omega arith;
  head_slot = refl;
  tail_slot = refl;
  head_in = omega arith;
  tail_in = omega arith;
  room = refl;
  pointers = λ e. cc e;
}

abbrev empty : CircBuf
empty = record {
  buf = 0 ∷ 0 ∷ 0 ∷ 0 ∷ [];
  head = 2;
  tail = 2;
  size = 2;
  elem_sz = 2;
  type = cpy_buf;
}

empty-IsValid : IsValid empty
empty-IsValid = record {
  k = 1;
  n = 1;
  h = 1;
  t = 1;
  elem_pow = refl;
  size_pow = refl;
  fits = omega arith;
  head_slot = refl;
  tail_slot = refl;
  head_in = omega arith;
  tail_in = omega arith;
  room = refl;
  pointers = λ e. cc e;
}

run_refines_example :
    run wrapped (put (40 ∷ 41 ∷ []) ∷ get ∷ put (50 ∷ 51 ∷ []) ∷ put (60 ∷ 61 ∷ []) ∷ [])
    ≡ some (
        spec_run 3
          (contents wrapped)
          (put (40 ∷ 41 ∷ []) ∷ get ∷ put (50 ∷ 51 ∷ []) ∷ put (60 ∷ 61 ∷ []) ∷ []))
run_refines_example =
    run_refines (put (40 ∷ 41 ∷ []) ∷ get ∷ put (50 ∷ 51 ∷ []) ∷ put (60 ∷ 61 ∷ []) ∷ [])
      wrapped-IsValid (refl, (refl, (refl, tt)))

pushm-Leaves_example :
    ((takes 2 1 (length (contents empty)) 1 ≡ true)
      × Leaves (pushm empty (1 ∷ 2 ∷ []) 1) (pos 0, contents empty ++ split (1 ∷ 2 ∷ []) 2 0 1))
    ⊎ ((takes 2 1 (length (contents empty)) 1 ≡ false)
        × (pushm empty (1 ∷ 2 ∷ []) 1 ≡ some (negsuc 0, empty)))
pushm-Leaves_example = pushm-Leaves empty-IsValid (1 ∷ 2 ∷ []) 1 (omega arith) (omega arith)

pushm_full_loses_example : Leaves (pushm empty (1 ∷ 2 ∷ 3 ∷ 4 ∷ []) 2) (pos 0, [])
pushm_full_loses_example = pushm_full_loses empty-IsValid (1 ∷ 2 ∷ 3 ∷ 4 ∷ []) refl (omega arith)

popm_lem_example :
    ((1 ≤ length (contents wrapped)) × (6 / 2 + 1 ≤ 4) × Pops wrapped-IsValid 1)
    ⊎ (¬ ((1 ≤ length (contents wrapped)) × (6 / 2 + 1 ≤ 4))
        × (popm wrapped 1 ≡ some (none, wrapped)))
popm_lem_example = popm_lem wrapped-IsValid 1

new-IsValid_example :
    (c : CircBuf) × (new 7 (2 ^ 2) 2 ≡ some c)
    × IsValid c
    × (contents c ≡ [])
    × (c.size ≡ 2 ^ 2)
    × (c.elem_sz ≡ 2 ^ 1)
new-IsValid_example = new-IsValid 7 2 1 2 (omega arith) (inr refl)

push-zero_size_example : (c : CircBuf) × (new 7 0 2 ≡ some c) × (push c (1 ∷ 2 ∷ []) ≡ none)
push-zero_size_example = push-zero_size 7 2 (1 ∷ 2 ∷ []) (omega arith)

foreach-contents_example : foreach wrapped ≡ some (contents wrapped)
foreach-contents_example = foreach-contents wrapped-IsValid
