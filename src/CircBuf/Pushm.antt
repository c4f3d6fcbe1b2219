-- ===== src/CircBuf/Pushm.antt =====
-- `ac_circ_buf_pushm`.
use native.Mathlib.Nat.{mod_self}
use libac.Prelude.{
  Bool, ℕ, ◌+◌, ◌-◌, ◌*◌, ◌/◌, ◌%◌, ◌^◌, ◌≤◌, ◌<◌, ◌≡◌, sym, ap, ◌∙◌, ◌⊎◌, inl, inr, ◌↔◌, true,
  false, ◌&&◌, ◌||◌, some, List, [], ◌++◌, arith, length, leb, ltb, ◌==◌, Bool-cases,
}
use libac.Prelude.Int.{pos, negsuc}
use libac.Bits.{pow-pos}
use libac.CircBuf.{CircBuf, pushm, reset, store, circ_count, circ_space_to_end}
use libac.CircBuf.Window.{window, split}
use libac.CircBuf.Valid.{
  IsValid, used, slot, contents, used-eq, used-lt, circ_count-eq, circ_space_to_end-eq, head_index,
  contents_of_none,
}
use libac.CircBuf.Push.{Leaves, store-Leaves, length-contents}
use libac.CircBuf.Store.{stored, store-stored, stored-IsValid, used-stored}

-- Whether a run of `m` items is taken by a buffer that holds `held`: they fit with those, and behind the
-- `at` slots of the array that lie before the head, unless nothing is held.
abbrev pub takes : (size at held m : ℕ) → Bool
takes size at held m = leb (held + m) (size - 1) && (leb (at + m) size || held == 0)

-- Emptying a buffer that holds nothing.
pub reset-IsValid : {c : CircBuf} → IsValid c → IsValid (reset c)
unfolding reset
reset-IsValid v = record {
  k = v.k;
  n = v.n;
  h = 0;
  t = 0;
  elem_pow = v.elem_pow;
  size_pow = v.size_pow;
  fits = v.fits;
  head_slot = omega arith;
  tail_slot = omega arith;
  head_in = pow-pos v.n;
  tail_in = pow-pos v.n;
  room = v.room;
  pointers = v.pointers;
}

module _ {c : CircBuf} (v : IsValid c) where
  open v use {k, n, h, t, elem_pow, size_pow, head_in, tail_in}

  used-reset : used (reset c) ≡ 0
  unfolding reset reset-IsValid
  used-reset =
      used-eq (reset-IsValid v) ∙ ap (λ x. x % 2 ^ n) {y = 2 ^ n} (omega arith) ∙ mod_self (2 ^ n)

  contents-reset : contents (reset c) ≡ []
  contents-reset =
      ap (window (reset c).size (slot (reset c)) ((reset c).tail / (reset c).elem_sz)) used-reset

  -- Room for the items before the end of the array, as the code computes it.
  room_iff :
      (m : ℕ) → (ltb (circ_space_to_end c) m ≡ false) ↔ ((used c + m ≤ 2 ^ n - 1) × (h + m ≤ 2 ^ n))
  room_iff m = ground (arith, circ_space_to_end-eq v, used-lt v, head_in)

  accepts_front :
      (src : List ℕ) (m : ℕ)
      → m < 2 ^ n
      → m * 2 ^ k ≤ length src
      → used c ≡ 0
      → Leaves (store (reset c) src m) (pos 0, contents c ++ split src (2 ^ k) 0 m)
  unfolding reset reset-IsValid
  accepts_front src m small given none_used =
      let (r, c', run, valid, out) =
        store-Leaves (reset-IsValid v) src m (omega arith) (omega (arith, used-reset)) given in
      (
        r,
        c',
        run,
        valid,
        out
            ∙ ap (λ q. (pos 0, q ++ split src (2 ^ k) 0 m))
                (contents-reset ∙ sym (contents_of_none c none_used)),
      )

  accepts_behind :
      (src : List ℕ) (m : ℕ)
      → m * 2 ^ k ≤ length src
      → used c + m ≤ 2 ^ n - 1
      → h + m ≤ 2 ^ n
      → Leaves (pushm c src m) (pos 0, contents c ++ split src (2 ^ k) 0 m)
  unfolding pushm
  accepts_behind src m given fits to_end =
      rw ((room_iff m).1 (fits, to_end))
        (store-Leaves v src m to_end (omega (arith, used-lt v)) given)

  -- An empty buffer is moved to the front only if the items do not fit behind its head.
  accepts_empty :
      (src : List ℕ) (m : ℕ)
      → m < 2 ^ n
      → m * 2 ^ k ≤ length src
      → used c ≡ 0
      → Leaves (pushm c src m) (pos 0, contents c ++ split src (2 ^ k) 0 m)
  unfolding pushm
  accepts_empty src m small given none_used = elim (Bool-cases (ltb (circ_space_to_end c) m)) [
    | inl short ↦
        let front : (circ_count c == 0 && leb m c.size) ≡ true =
          ground (arith, circ_count-eq v, size_pow) in
        rw (short, front) (accepts_front src m small given none_used)
    | inr enough ↦ accepts_behind src m given ((room_iff m).0 enough).0 ((room_iff m).0 enough).1
  ]

  rejects :
      (src : List ℕ) (m : ℕ)
      → m < 2 ^ n
      → (2 ^ n - 1 < used c + m) ⊎ ((2 ^ n < h + m) × (0 < used c))
      → pushm c src m ≡ some (negsuc 0, c)
  unfolding pushm
  rejects src m small over =
      ground (arith, circ_space_to_end-eq v, circ_count-eq v, used-lt v, head_in, size_pow)

  -- The two outcomes of the specification's test.
  accepted :
      (m : ℕ)
      → (leb (length (contents c) + m) (c.size - 1)
          && (leb (c.head / c.elem_sz + m) c.size || length (contents c) == 0))
        ≡ true
      → (used c + m ≤ 2 ^ n - 1) × ((h + m ≤ 2 ^ n) ⊎ (used c ≡ 0))
  accepted m ok = ground (arith, length-contents v, size_pow, head_index v)

  refused :
      (m : ℕ)
      → (leb (length (contents c) + m) (c.size - 1)
          && (leb (c.head / c.elem_sz + m) c.size || length (contents c) == 0))
        ≡ false
      → (2 ^ n - 1 < used c + m) ⊎ ((2 ^ n < h + m) × (0 < used c))
  refused m over = ground (arith, length-contents v, size_pow, head_index v)

  -- `ac_circ_buf_pushm` of fewer than `size` items onto a valid buffer appends them all and returns
  -- 0 if together with the items held they are fewer than `size` and either they fit between the
  -- head and the end of the array or the buffer is empty; it stays inside both arrays then, and leaves
  -- a valid buffer. Else it returns -1 and changes nothing: the buffer is the same to the last byte.
  pub pushm-Leaves :
      (src : List ℕ) (m : ℕ)
      → m < c.size
      → m * c.elem_sz ≤ length src
      → ((takes c.size (c.head / c.elem_sz) (length (contents c)) m ≡ true)
          × Leaves (pushm c src m) (pos 0, contents c ++ split src c.elem_sz 0 m))
        ⊎ ((takes c.size (c.head / c.elem_sz) (length (contents c)) m ≡ false)
            × (pushm c src m ≡ some (negsuc 0, c)))
  pushm-Leaves src m small given =
      let given' : m * 2 ^ k ≤ length src = omega (arith, ap (λ (x : ℕ). m * x) elem_pow) in
      elim (Bool-cases (takes c.size (c.head / c.elem_sz) (length (contents c)) m)) [
        | inl ok ↦
            let (total, place) = accepted m ok in
            let (r, c', run, valid, out) : Leaves (pushm c src m)
                (pos 0, contents c ++ split src (2 ^ k) 0 m) =
              elim place [
                | inl to_end ↦ accepts_behind src m given' total to_end
                | inr none_used ↦ accepts_empty src m (omega (arith, size_pow)) given' none_used
              ] in
            inl (
              ok,
              (
                r,
                c',
                run,
                valid,
                out ∙ ap (λ x. (pos 0, contents c ++ split src x 0 m)) (sym elem_pow),
              ),
            )
        | inr over ↦ inr (over, rejects src m (omega (arith, size_pow)) (refused m over))
      ]

  -- After a full ring of items the head is back at the front, and no slot counts as used.
  full_used :
      (src : List ℕ) (m : ℕ) (e : m ≡ 2 ^ n) (given : m * 2 ^ k ≤ length src)
      → used (stored (reset-IsValid v) src m) ≡ 0
  unfolding reset-IsValid reset
  full_used src m e given =
      used-stored (reset-IsValid v) src m (omega arith) given
      ∙ ap (λ x. (x + 2 ^ n - 0) % 2 ^ n) round
      ∙ ap (λ x. x % 2 ^ n) {y = 2 ^ n} (omega arith)
      ∙ mod_self (2 ^ n)
    where
      round : (0 + m) % 2 ^ n ≡ 0
      round = ap (λ x. x % 2 ^ n) {y = 2 ^ n} (omega arith) ∙ mod_self (2 ^ n)

  full_at :
      (src : List ℕ) (m : ℕ)
      → m ≡ 2 ^ n
      → m * 2 ^ k ≤ length src
      → used c ≡ 0
      → Leaves (pushm c src m) (pos 0, [])
  unfolding pushm reset-IsValid reset
  full_at src m e given none_used =
      let short : ltb (circ_space_to_end c) m ≡ true =
        ground (arith, circ_space_to_end-eq v, head_in) in
      let front : (circ_count c == 0 && leb m c.size) ≡ true =
        ground (arith, circ_count-eq v, size_pow) in
      let w = reset-IsValid v in
      rw (short, front)
        (
          pos 0,
          stored w src m,
          store-stored w src m (omega arith) given,
          stored-IsValid w src m (omega arith) given,
          ap (λ q. (pos 0, q)) (contents_of_none (stored w src m) (full_used src m e given)),
        )

  -- `ac_circ_buf_pushm` of exactly `size` items onto an empty valid buffer returns 0, but the buffer
  -- is empty afterwards: the items are lost.
  pub pushm_full_loses :
      (src : List ℕ)
      → contents c ≡ []
      → c.size * c.elem_sz ≤ length src
      → Leaves (pushm c src c.size) (pos 0, [])
  pushm_full_loses src empty given =
      full_at src c.size size_pow
        (omega (
          arith,
          ap (λ (x : ℕ). x * c.elem_sz) size_pow,
          ap (λ (x : ℕ). 2 ^ n * x) elem_pow,
          ap (λ (x : ℕ). x * 2 ^ k) size_pow,
        ))
        (omega (arith, length-contents v, ap length empty))
