-- ===== src/CircBuf/Foreach.antt =====
-- `ac_circ_buf_count` and `ac_circ_buf_foreach`.
use native.Mathlib.Nat.{mod-lt, mod-add-mod, mod-eq_of_lt}
use libac.Prelude.{
  ℕ, zero, suc, ◌+◌, ◌-◌, ◌*◌, ◌%◌, ◌^◌, ◌≤◌, ◌<◌, ◌≡◌, refl, sym, ap, ◌∙◌, inl, inr, some, List,
  ◌∷◌, arith, length, ◌==◌, Bool-cases,
}
use libac.Mem.{chunk, mem_read}
use libac.CircBuf.{CircBuf, count, circ_count, foreach, foreach_from, foreach_round, cells}
use libac.CircBuf.Window.{window}
use libac.CircBuf.Valid.{
  IsValid, contents, contents-eq, contents_of_none, used-eq, used-lt, cells-le, circ_count-eq,
  mask_slots,
}
use libac.CircBuf.Store.{cells-eq}
use libac.CircBuf.Push.{length-contents}

module _ {c : CircBuf} (v : IsValid c) where
  open v use {k, n, h, t, elem_pow, tail_in, room}

  -- `ac_circ_buf_count` of a valid buffer is the number of items in it.
  pub count-contents : count c ≡ length (contents c)
  unfolding count
  count-contents = circ_count-eq v ∙ sym (length-contents v)

  abbrev slot_at : ℕ → List ℕ
  slot_at x = chunk c.buf (x * 2 ^ k) (2 ^ k)

  read_slot : (x : ℕ) → x < 2 ^ n → mem_read c.buf (x * 2 ^ k) (cells c 1) ≡ some (slot_at x)
  unfolding mem_read
  read_slot x small = ap (mem_read c.buf (x * 2 ^ k)) one ∙ ground (arith, room, cells-le v (x + 1))
    where
      one : cells c 1 ≡ 2 ^ k
      one = cells-eq v 1 ∙ omega arith

  round :
      (x : ℕ) (items : List (List ℕ))
      → x < 2 ^ n
      → foreach_round c (x * 2 ^ k) (some items) ≡ some (slot_at x ∷ items)
  unfolding foreach_round
  round x items small = rw (read_slot x small, foreach_round)

  foreach_from-window :
      (left i : ℕ)
      → i + left ≤ 2 ^ n
      → foreach_from c left i ≡ some (window (2 ^ n) slot_at ((t + i) % 2 ^ n) left)
  unfolding foreach_from
  foreach_from-window zero i h = refl
  foreach_from-window (suc left) i fits =
      (λ j.
        foreach_round c (mask_slots v t i c.tail v.tail_slot tail_in (omega arith) j)
          (foreach_from-window left (i + 1) (omega arith) j))
      ∙ round ((t + i) % 2 ^ n) _ (mod-lt (t + i) (omega arith))
      ∙ ap (λ x. some (slot_at ((t + i) % 2 ^ n) ∷ window (2 ^ n) slot_at x left)) next
    where
      next : (t + (i + 1)) % 2 ^ n ≡ ((t + i) % 2 ^ n + 1) % 2 ^ n
      next = ap (λ x. x % 2 ^ n) (omega arith) ∙ sym (mod-add-mod (t + i) (2 ^ n) 1)

  -- `ac_circ_buf_foreach` over a valid buffer calls the action on each item, oldest first, and reads
  -- inside the array.
  pub foreach-contents : foreach c ≡ some (contents c)
  unfolding foreach
  foreach-contents = elim (Bool-cases (circ_count c == 0)) [
    | inl nothing ↦
        rw nothing (ap some (sym (contents_of_none c (ground (arith, circ_count-eq v)))))
    | inr something ↦ rw something (
        ap (λ x. foreach_from c x 0) (circ_count-eq v ∙ used-eq v)
        ∙ foreach_from-window ((h + 2 ^ n - t) % 2 ^ n) 0 (omega (arith, used-eq v, used-lt v))
        ∙ ap some (
            ap (λ x. window (2 ^ n) slot_at x ((h + 2 ^ n - t) % 2 ^ n)) start
            ∙ sym (contents-eq v)))
  ]
    where
      start : (t + 0) % 2 ^ n ≡ t
      start = ap (λ x. x % 2 ^ n) (omega arith) ∙ mod-eq_of_lt tail_in
