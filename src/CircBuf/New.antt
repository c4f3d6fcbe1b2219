-- ===== src/CircBuf/New.antt =====
-- `ac_circ_buf_new`.
use Prim.Native.Nat.{bit_and}
use native.Mathlib.Nat.{mod_self, mul-le-mul_right, le-div_iff_mul-le, div-le_self}
use mathlib.Core.Path.{subst}
use libac.Prelude.{
  ℕ, ◌+◌, ◌-◌, ◌*◌, ◌/◌, ◌%◌, ◌^◌, ◌≤◌, ◌<◌, ◌≡◌, refl, sym, ap, ◌∙◌, ◌↔◌, ◌⊎◌, inl, inr, true,
  false, none, some, List, [], arith, ◌==◌, Bool-cases, length-replicate, ℕ_discrete, replicate,
}
use libac.Bits.{pow-add, pow-pos, bit_and-mask, bit_and-pred_pow, pow_of_bit_and-pred}
use libac.Mem.{memcpy}
use libac.CircBuf.{
  CircBuf, BufType, ptr_buf, cpy_buf, is_pow2, new, push, store, cells, circ_space, sub32, u32,
}
use libac.CircBuf.Valid.{IsValid, contents, contents_of_none, used-eq}

abbrev pub IsPow : ℕ → Type 0
IsPow x = (n : ℕ) × (x ≡ 2 ^ n)

is_pow2-pow : (size n : ℕ) → size < 2 ^ 32 → size ≡ 2 ^ n → is_pow2 size ≡ true
unfolding is_pow2
is_pow2-pow size n small e =
    let less : sub32 size 1 ≡ 2 ^ n - 1 = omega (arith, pow-pos n) in
    let bits : bit_and size (sub32 size 1) ≡ 0 =
      (λ i. bit_and (e i) (less i)) ∙ bit_and-pred_pow n in
    rw bits

is_pow2-zero : is_pow2 0 ≡ true
unfolding is_pow2
is_pow2-zero = refl

IsPow-is_pow2 : (size : ℕ) → 0 < size → size < 2 ^ 32 → is_pow2 size ≡ true → IsPow size
unfolding is_pow2
IsPow-is_pow2 size big small ok =
    let less : sub32 size 1 ≡ size - 1 = omega arith in
    let bits : bit_and size (sub32 size 1) ≡ 0 = ground arith in
    pow_of_bit_and-pred size big (sym (ap (bit_and size) less) ∙ bits)

module _ (junk : ℕ) where
  -- `ac_circ_buf_new` returns a buffer for the sizes that are a power of two, and for size 0, and
  -- NULL for all others.
  pub new-accepts :
      (size elem_sz : ℕ)
      → size < 2 ^ 32
      → ((new junk size elem_sz ≡ none) ↔ ¬ ((size ≡ 0) ⊎ IsPow size))
  unfolding new
  new-accepts size elem_sz small = elim (Bool-cases (is_pow2 size)) [
    | inl ok ↦ (λ e. absurd (ground arith), λ no_pow. absurd (no_pow (accepted ok)))
    | inr bad ↦ (λ _ p. cc (sym bad ∙ passes p), λ _. rw bad)
  ]
    where
      accepted : is_pow2 size ≡ true → (size ≡ 0) ⊎ IsPow size
      accepted ok = elim (ℕ_discrete size 0) [
        | yes z ↦ inl z
        | no nz ↦ inr (IsPow-is_pow2 size (omega arith) small ok)
      ]

      passes : (size ≡ 0) ⊎ IsPow size → is_pow2 size ≡ true
      passes (inl z) = ap is_pow2 z ∙ is_pow2-zero
      passes (inr (n, e)) = is_pow2-pow size n small e

  module _ (n k : ℕ) (fits : n + k ≤ 31) where
    abbrev fresh : ℕ → ℕ → BufType → CircBuf
    fresh len e ty = record {
      buf = replicate len junk;
      head = 0;
      tail = 0;
      size = 2 ^ n;
      elem_sz = e;
      type = ty;
    }

    fresh-IsValid :
        (len e : ℕ) (ty : BufType)
        → len ≡ 2 ^ n * 2 ^ k
        → e ≡ 2 ^ k
        → (ty ≡ ptr_buf → k ≡ 0)
        → IsValid (fresh len e ty)
    fresh-IsValid len e ty room elem ptr = record {
      k = k;
      n = n;
      h = 0;
      t = 0;
      elem_pow = elem;
      size_pow = refl;
      fits = fits;
      head_slot = omega arith;
      tail_slot = omega arith;
      head_in = pow-pos n;
      tail_in = pow-pos n;
      room = length-replicate len junk ∙ room;
      pointers = ptr;
    }

    fresh_empty :
        (len e : ℕ) (ty : BufType)
        → len ≡ 2 ^ n * 2 ^ k
        → e ≡ 2 ^ k
        → (ty ≡ ptr_buf → k ≡ 0)
        → contents (fresh len e ty) ≡ []
    unfolding fresh-IsValid
    fresh_empty len e ty room elem ptr = contents_of_none (fresh len e ty) (
        used-eq (fresh-IsValid len e ty room elem ptr)
        ∙ ap (λ x. x % 2 ^ n) {y = 2 ^ n} (omega arith)
        ∙ mod_self (2 ^ n))

    abbrev Made : ℕ → Type 0
    Made elem_sz =
        (c : CircBuf) × (new junk (2 ^ n) elem_sz ≡ some c)
        × IsValid c
        × (contents c ≡ [])
        × (c.size ≡ 2 ^ n)
        × (c.elem_sz ≡ 2 ^ k)

    accepts : is_pow2 (2 ^ n) ≡ true
    accepts = is_pow2-pow (2 ^ n) n small refl
      where
        whole : 2 ^ 31 ≡ 2 ^ (31 - n) * 2 ^ n
        whole = ap (λ x. 2 ^ x) {x = 31} (omega arith) ∙ pow-add (31 - n) n

        small : 2 ^ n < 2 ^ 32
        small = omega (arith, whole, mul-le-mul_right (2 ^ n) (pow-pos (31 - n)))

    Made-pointers : k ≡ 0 → Made 0
    unfolding new
    Made-pointers k0 =
        let room : 2 ^ n ≡ 2 ^ n * 2 ^ k = omega (arith, ap (λ (x : ℕ). 2 ^ n * 2 ^ x) k0) in
        let elem : 1 ≡ 2 ^ k = ap (λ x. 2 ^ x) (sym k0) in
        (
          fresh (2 ^ n) 1 ptr_buf,
          rw accepts,
          fresh-IsValid (2 ^ n) 1 ptr_buf room elem (λ _. k0),
          fresh_empty (2 ^ n) 1 ptr_buf room elem (λ _. k0),
          refl,
          elem,
        )

    Made-copies : (elem_sz : ℕ) → elem_sz ≡ 2 ^ k → Made elem_sz
    unfolding new
    Made-copies elem_sz elem =
        let room : 2 ^ n * elem_sz ≡ 2 ^ n * 2 ^ k = ap (λ x. 2 ^ n * x) elem in
        let nonzero : (elem_sz == 0) ≡ false = ground (arith, pow-pos k) in
        (
          fresh (2 ^ n * elem_sz) elem_sz cpy_buf,
          rw (accepts, nonzero),
          fresh-IsValid (2 ^ n * elem_sz) elem_sz cpy_buf room elem (λ e. cc e),
          fresh_empty (2 ^ n * elem_sz) elem_sz cpy_buf room elem (λ e. cc e),
          refl,
          elem,
        )

  -- For a size of `2 ^ n` items of `2 ^ k` bytes, or of pointers (`elem_sz` 0), of at most 2 ^ 31
  -- cells in all, the new buffer is valid and empty.
  pub new-IsValid :
      (n k elem_sz : ℕ)
      → n + k ≤ 31
      → (elem_sz ≡ 0) × (k ≡ 0) ⊎ (elem_sz ≡ 2 ^ k)
      → (c : CircBuf) × (new junk (2 ^ n) elem_sz ≡ some c)
        × IsValid c
        × (contents c ≡ [])
        × (c.size ≡ 2 ^ n)
        × (c.elem_sz ≡ 2 ^ k)
  new-IsValid n k elem_sz fits (inl (zero_sz, k0)) =
      subst (Made n k fits) (sym zero_sz) (Made-pointers n k fits k0)
  new-IsValid n k elem_sz fits (inr e) = Made-copies n k fits elem_sz e

-- A buffer of size 0.
abbrev no_slots : ℕ → BufType → CircBuf
no_slots elem_sz ty = record {
  buf = [];
  head = 0;
  tail = 0;
  size = 0;
  elem_sz = elem_sz;
  type = ty;
}

no_slots-space :
    (elem_sz : ℕ) (ty : BufType)
    → 0 < elem_sz
    → elem_sz ≤ 2 ^ 31
    → 0 < circ_space (no_slots elem_sz ty)
unfolding circ_space
no_slots-space elem_sz ty pos small = omega (
  arith,
  bit_and-mask 32 (sub32 0 (u32 (0 + elem_sz)) / elem_sz),
  (le-div_iff_mul-le {k = elem_sz} {x = 1} {y = sub32 0 (u32 (0 + elem_sz))} pos).1 (omega arith),
  div-le_self (sub32 0 (u32 (0 + elem_sz))) elem_sz,
)

push-no_slots :
    (elem_sz : ℕ) (ty : BufType) (item : List ℕ)
    → 0 < elem_sz
    → elem_sz ≤ 2 ^ 31
    → push (no_slots elem_sz ty) item ≡ none
unfolding push store memcpy cells
push-no_slots elem_sz ptr_buf item pos small =
    ground (arith, no_slots-space elem_sz ptr_buf pos small)
push-no_slots elem_sz cpy_buf item pos small =
    ground (arith, no_slots-space elem_sz cpy_buf pos small)

-- `ac_circ_buf_new` accepts size 0, and every `ac_circ_buf_push` to the buffer writes outside its
-- array, for items of at most 2 ^ 31 bytes and for pointers.
pub push-zero_size :
    (junk elem_sz : ℕ) (item : List ℕ)
    → elem_sz ≤ 2 ^ 31
    → (c : CircBuf) × (new junk 0 elem_sz ≡ some c) × (push c item ≡ none)
unfolding new is_pow2
push-zero_size junk elem_sz item small = elim (ℕ_discrete elem_sz 0) [
  | yes z ↦
      (no_slots 1 ptr_buf, ground arith, push-no_slots 1 ptr_buf item (omega arith) (omega arith))
  | no nz ↦ (
    no_slots elem_sz cpy_buf,
    ground arith,
    push-no_slots elem_sz cpy_buf item (omega arith) small,
  )
]
