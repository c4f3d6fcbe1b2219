-- ===== src/CircBuf/Index.antt =====
-- The index arithmetic of ac_circ_buf.c, free of the buffer: a ring of `s` slots of `e` cells,
-- where `r` rings of cells make up 2 ^ 32.
use native.Mathlib.Nat.{
  mod-eq_of_lt, add-mod_right, mul-div_left, mul-add-mod_self_right, mul-le-mul_right, le_trans,
}
use libac.Prelude.{ℕ, suc, ◌+◌, ◌-◌, ◌*◌, ◌/◌, ◌%◌, ◌≤◌, ◌<◌, ◌≡◌, sym, ap, ◌∙◌, arith, dec_lt}

sub-scale : (a d e : ℕ) → d ≤ a → a * e - d * e ≡ (a - d) * e
sub-scale a d e h = ap (λ x. x * e - d * e) split ∙ cancel (a - d)
  where
    split : a ≡ a - d + d
    split = omega arith

    cancel : (x : ℕ) → (x + d) * e - d * e ≡ x * e
    cancel x = omega arith

module _ (w e s r : ℕ) (e_pos : 0 < e) (r_pos : 0 < r) (whole : r * s * e ≡ w) where
  ring-le : s ≤ r * s
  ring-le = grind arith

  -- An offset of at most `s` slots is at most `w` cells.
  pub slots-le : (d : ℕ) → d ≤ s → d * e ≤ w
  slots-le d h = omega (arith, mul-le-mul_right e (le_trans h ring-le))

  pub slots-lt : (d : ℕ) → d < s → d * e < w
  slots-lt d h = omega (arith, slots-le (suc d) h)

  forward : (t d : ℕ) → t + d < s → ((t + d) * e + w - t * e) % w / e % s ≡ d
  forward t d h =
      ap (λ x. x % w / e % s) there
      ∙ ap (λ x. x / e % s) (add-mod_right (d * e) w)
      ∙ ap (λ x. x / e % s) (mod-eq_of_lt (slots-lt d (omega arith)))
      ∙ ap (λ x. x % s) (mul-div_left d e_pos)
      ∙ mod-eq_of_lt (omega arith)
    where
      there : (t + d) * e + w - t * e ≡ d * e + w
      there = omega arith

  backward : (h d : ℕ) → 0 < d → h + d ≤ s → (h * e + w - (h + d) * e) % w / e % s ≡ s - d
  backward h d d_pos hs =
      ap (λ x. x % w / e % s) there
      ∙ ap (λ x. x / e % s) (mod-eq_of_lt (omega (arith, slots-le d (omega arith), e_pos, d_cells)))
      ∙ ap (λ x. x / e % s) scaled
      ∙ ap (λ x. x % s) (mul-div_left (r * s - d) e_pos)
      ∙ ap (λ x. x % s) peeled
      ∙ mul-add-mod_self_right (r - 1) s (s - d)
      ∙ mod-eq_of_lt (omega arith)
    where
      d_cells : 0 < d * e
      d_cells = grind arith

      there : h * e + w - (h + d) * e ≡ w - d * e
      there = omega arith

      scaled : w - d * e ≡ (r * s - d) * e
      scaled =
          ap (λ x. x - d * e) (sym whole) ∙ sub-scale (r * s) d e (le_trans (omega arith) ring-le)

      peeled : r * s - d ≡ (r - 1) * s + (s - d)
      peeled = omega (arith, ap (λ (x : ℕ). x * s) split)
        where
          split : r ≡ r - 1 + 1
          split = omega arith

  -- `((h * e - t * e) / e) & (s - 1)`
  pub diff_slots : (h t : ℕ) → h < s → t ≤ s → (h * e + w - t * e) % w / e % s ≡ (h + s - t) % s
  diff_slots h t hh ht = elim (dec_lt h t) [
    | yes lt ↦
        let split : t ≡ h + (t - h) = omega arith in
        let less : h + s - t ≡ s - (t - h) = omega arith in
        let fits : h + (t - h) ≤ s = omega arith in
        ap (λ x. (h * e + w - x * e) % w / e % s) split
        ∙ backward h (t - h) (omega arith) fits
        ∙ sym (mod-eq_of_lt (omega arith))
        ∙ ap (λ x. x % s) (sym less)
    | no ge ↦
        let split : h ≡ t + (h - t) = omega arith in
        let more : h + s - t ≡ h - t + s = omega arith in
        let fits : t + (h - t) < s = omega arith in
        ap (λ x. (x * e + w - t * e) % w / e % s) split
        ∙ forward t (h - t) fits
        ∙ sym (mod-eq_of_lt (omega arith))
        ∙ sym (add-mod_right (h - t) s)
        ∙ ap (λ x. x % s) (sym more)
  ]
