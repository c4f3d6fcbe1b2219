-- ===== src/CircBuf/Push.antt =====
-- `ac_circ_buf_push`.
use mathlib.Core.Path.{ap₂}
use libac.Prelude.{
  ℕ, zero, suc, ◌+◌, ◌-◌, ◌*◌, ◌/◌, ◌^◌, ◌≤◌, ◌<◌, ◌≡◌, refl, sym, ap, ◌∙◌, inl, inr, false, Option,
  some, List, [], ◌∷◌, ◌++◌, arith, length, ◌==◌, if◌then◌else◌, Bool-cases,
}
use libac.Prelude.Int.{ℤ, pos, negsuc}
use libac.Mem.{chunk, cell_at}
use libac.CircBuf.{CircBuf, push, store, circ_space}
use libac.CircBuf.Window.{split, length-window}
use libac.CircBuf.Valid.{IsValid, used, contents, used-lt, circ_space-eq}
use libac.CircBuf.Store.{stored, store-stored, stored-IsValid, contents-stored}

-- A queue of at most `cap` items, and the C result of adding one.
pub spec_push : ℕ → List (List ℕ) → List ℕ → ℤ × List (List ℕ)
spec_push cap q x = if length q == cap then (negsuc 0, q) else (pos 0, q ++ x ∷ [])

chunk_tail : (x : ℕ) (l : List ℕ) (i n : ℕ) → chunk (x ∷ l) (i + 1) n ≡ chunk l i n
chunk_tail x l i zero = refl
chunk_tail x l i (suc n) =
    ap₂ ◌∷◌ (ap (cell_at (x ∷ l)) {y = suc i} (omega arith)) (chunk_tail x l (i + 1) n)

pub chunk_all : (l : List ℕ) → chunk l 0 (length l) ≡ l
chunk_all [] = refl
chunk_all (x ∷ l) = ap (◌∷◌ x) (chunk_tail x l 0 (length l) ∙ chunk_all l)

-- A run to a result and a valid buffer whose contents are as `out` says.
abbrev pub Leaves : Option (ℤ × CircBuf) → ℤ × List (List ℕ) → Type 0
Leaves run out =
    (r : ℤ) × (c' : CircBuf) × (run ≡ some (r, c')) × IsValid c' × ((r, contents c') ≡ out)

module _ {c : CircBuf} (v : IsValid c) where
  open v use {k, n, h, t, elem_pow, size_pow, head_in, tail_in}

  pub store-Leaves :
      (src : List ℕ) (m : ℕ)
      → h + m ≤ 2 ^ n
      → used c + m < 2 ^ n
      → m * 2 ^ k ≤ length src
      → Leaves (store c src m) (pos 0, contents c ++ split src (2 ^ k) 0 m)
  store-Leaves src m to_end free given = (
    pos 0,
    stored v src m,
    store-stored v src m to_end given,
    stored-IsValid v src m to_end given,
    ap (λ q. (pos 0, q)) (contents-stored v src m to_end given free),
  )

  pub length-contents : length (contents c) ≡ used c
  length-contents = length-window c.size _ (c.tail / c.elem_sz) (used c)

  one_item : (item : List ℕ) → length item ≡ 2 ^ k → split item (2 ^ k) 0 1 ≡ item ∷ []
  one_item item len =
      ap (λ x. x ∷ [])
        (ap₂ (chunk item) {x = 0 * 2 ^ k} {y = 0} (omega arith) (sym len) ∙ chunk_all item)

  -- `ac_circ_buf_push` of an item of `elem_sz` cells onto a valid buffer returns -1 and changes
  -- nothing if the buffer holds `size - 1` items, and else returns 0 and adds the item at the end.
  -- It writes inside the array, and leaves a valid buffer.
  pub push-Leaves :
      (item : List ℕ)
      → length item ≡ c.elem_sz
      → Leaves (push c item) (spec_push (c.size - 1) (contents c) item)
  unfolding push spec_push
  push-Leaves item len = elim (Bool-cases (circ_space c == 0)) [
    | inl full ↦ (
      negsuc 0,
      c,
      rw full,
      v,
      ground (arith, length-contents, circ_space-eq v, size_pow, used-lt v),
    )
    | inr open_slot ↦
        let free : used c + 1 < 2 ^ n = ground (arith, circ_space-eq v, used-lt v) in
        let (r, c', run, valid, out) =
          store-Leaves item 1 (omega (arith, head_in)) free (omega (arith, elem_pow)) in
        let more : (length (contents c) == (c.size - 1)) ≡ false =
          ground (arith, length-contents, size_pow) in
        let grown : contents c ++ split item (2 ^ k) 0 1 ≡ contents c ++ item ∷ [] =
          ap (λ x. contents c ++ x) (one_item item (len ∙ elem_pow)) in
        (r, c', rw open_slot run, valid, out ∙ ap (λ q. (pos 0, q)) grown ∙ rw more)
  ]
