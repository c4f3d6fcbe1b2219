-- ===== src/CircBuf/Run.antt =====
-- Sequences of `ac_circ_buf_push` and `ac_circ_buf_pop`, next to a bounded queue.
use mathlib.Core.Path.{subst}
use libac.Prelude.{
  ℕ, ◌-◌, ◌≡◌, refl, sym, ap, ◌∙◌, Option, none, some, List, [], ◌∷◌, arith, length,
}
use libac.Prelude.Int.{ℤ}
use libac.CircBuf.{CircBuf, push, pop}
use libac.CircBuf.Valid.{IsValid, contents}
use libac.CircBuf.Push.{spec_push, push-Leaves}
use libac.CircBuf.Pop.{spec_pop, pop_lem}

-- A call of `ac_circ_buf_push` or `ac_circ_buf_pop`, and what the caller sees of it.
pub data Op : Type 0 where
  put : List ℕ → Op
  get : Op

pub data Reply : Type 0 where
  result : ℤ → Reply
  item : Option (List ℕ) → Reply

-- The calls in order; `none` if one of them leaves the array.
pub run : CircBuf → List Op → Option (List Reply)
run c [] = some []
run c (put x ∷ ops) = elim (push c x) [
  | none ↦ none
  | some (r, c') ↦ elim (run c' ops) [ none ↦ none | some rs ↦ some (result r ∷ rs) ]
]
run c (get ∷ ops) = elim (pop c) [
  | none ↦ none
  | some (o, c') ↦ elim (run c' ops) [ none ↦ none | some rs ↦ some (item o ∷ rs) ]
]

-- The same calls on a queue of at most `cap` items.
pub spec_run : ℕ → List (List ℕ) → List Op → List Reply
spec_run cap q [] = []
spec_run cap q (put x ∷ ops) = let (r, q') = spec_push cap q x in result r ∷ spec_run cap q' ops
spec_run cap q (get ∷ ops) = let (o, q') = spec_pop q in item o ∷ spec_run cap q' ops

-- The items pushed have `sz` cells.
abbrev pub Sized : ℕ → List Op → Type 0
Sized sz [] = Unit
Sized sz (put x ∷ ops) = (length x ≡ sz) × Sized sz ops
Sized sz (get ∷ ops) = Sized sz ops

push_keeps :
    (c : CircBuf) {c' : CircBuf} {r : ℤ} (x : List ℕ)
    → push c x ≡ some (r, c')
    → (c'.size ≡ c.size) × (c'.elem_sz ≡ c.elem_sz)
unfolding push
push_keeps c x e = ground arith

pop_keeps :
    (c : CircBuf) {c' : CircBuf} {o : Option (List ℕ)}
    → pop c ≡ some (o, c')
    → (c'.size ≡ c.size) × (c'.elem_sz ≡ c.elem_sz)
unfolding pop
pop_keeps c e = ground arith

-- Any sequence of `ac_circ_buf_push` and `ac_circ_buf_pop` on a valid buffer gives the results that a
-- queue of at most `size - 1` items gives, and never leaves the array, if the items pushed have
-- `elem_sz` cells.
pub run_refines :
    (ops : List Op) {c : CircBuf}
    → IsValid c
    → Sized c.elem_sz ops
    → run c ops ≡ some (spec_run (c.size - 1) (contents c) ops)
unfolding run spec_run
run_refines [] v sized = refl
run_refines (put x ∷ ops) {c} v (len, sized) =
    let (r, c', called, valid, out) = push-Leaves v x len in
    let (size, elem) = push_keeps c x called in
    let ih = run_refines ops valid (subst (λ e. Sized e ops) (sym elem) sized) in
    rw (called, ih, run, spec_run)
      (ap (λ n. some (result r ∷ spec_run (n - 1) (contents c') ops)) size
        ∙ ap (λ ((r, q) : ℤ × List (List ℕ)). some (result r ∷ spec_run (c.size - 1) q ops)) out)
run_refines (get ∷ ops) {c} v sized =
    let (o, c', called, valid, out) = pop_lem v in
    let (size, elem) = pop_keeps c called in
    let ih = run_refines ops valid (subst (λ e. Sized e ops) (sym elem) sized) in
    rw (called, ih, run, spec_run)
      (ap (λ n. some (item o ∷ spec_run (n - 1) (contents c') ops)) size
        ∙ ap
            (λ ((o, q) : Option (List ℕ) × List (List ℕ)).
              some (item o ∷ spec_run (c.size - 1) q ops))
            out)
