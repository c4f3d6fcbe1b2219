-- ===== src/CircBuf/Valid.antt =====
-- The invariant of `ac_circ_buf_t`, and what the counts come to under it.
use Prim.Native.Nat.{bit_and}
use native.Mathlib.Nat.{
  mod-eq_of_lt, mod-lt, mod-eq-sub-mod, mul-div_left, mul-le-mul_right, mul-le-mul_left, le_refl,
  le_trans,
}
use libac.Prelude.{
  ℕ, ◌+◌, ◌-◌, ◌*◌, ◌/◌, ◌%◌, ◌^◌, ◌≤◌, ◌<◌, ◌≡◌, sym, ap, ◌∙◌, arith, length, dec_lt, List, [],
  ltb, leb, if◌then◌else◌,
}
use libac.Bits.{pow-add, pow-pos, bit_and-mask, bit_and-scale}
use libac.Mem.{chunk}
use libac.CircBuf.{
  CircBuf, ptr_buf, u32, sub32, circ_count, circ_space, circ_count_to_end, circ_space_to_end,
  advance,
}
use libac.CircBuf.Index.{diff_slots, slots-le}
use libac.CircBuf.Window.{window}

-- `size` and `elem_sz` are powers of two, `head` and `tail` stand at slots, and all offsets fit
-- `u32`.
pub record IsValid (c : CircBuf) : Type 0 where
  pub k : ℕ
  pub n : ℕ
  pub h : ℕ
  pub t : ℕ
  pub elem_pow : c.elem_sz ≡ 2 ^ k
  pub size_pow : c.size ≡ 2 ^ n
  pub fits : n + k ≤ 31
  pub head_slot : c.head ≡ h * 2 ^ k
  pub tail_slot : c.tail ≡ t * 2 ^ k
  pub head_in : h < 2 ^ n
  pub tail_in : t < 2 ^ n
  pub room : length c.buf ≡ 2 ^ n * 2 ^ k
  pub pointers : c.type ≡ ptr_buf → k ≡ 0

-- How many slots are in use, by their numbers.
abbrev pub used : CircBuf → ℕ
used c = (c.head / c.elem_sz + c.size - c.tail / c.elem_sz) % c.size

abbrev pub slot : CircBuf → ℕ → List ℕ
slot c i = chunk c.buf (i * c.elem_sz) c.elem_sz

-- The items in the buffer, oldest first.
abbrev pub contents : CircBuf → List (List ℕ)
contents c = window c.size (slot c) (c.tail / c.elem_sz) (used c)

pub contents_of_none : (c : CircBuf) → used c ≡ 0 → contents c ≡ []
contents_of_none c e = ap (window c.size (slot c) (c.tail / c.elem_sz)) e

-- The slots between head and tail and those between tail and head make up all but one.
free_slots : (s h t : ℕ) → h < s → t < s → (t + s - (h + 1)) % s ≡ s - 1 - (h + s - t) % s
free_slots s h t hh ht = elim (dec_lt h t) [
  | yes lt ↦ omega (
    arith,
    mod-eq_of_lt {n = h + s - t} {m = s} (omega arith),
    mod-eq-sub-mod {n = t + s - (h + 1)} {m = s} (omega arith),
    mod-eq_of_lt {n = t + s - (h + 1) - s} {m = s} (omega arith),
  )
  | no ge ↦ omega (
    arith,
    mod-eq-sub-mod {n = h + s - t} {m = s} (omega arith),
    mod-eq_of_lt {n = h + s - t - s} {m = s} (omega arith),
    mod-eq_of_lt {n = t + s - (h + 1)} {m = s} (omega arith),
  )
]

module _ {c : CircBuf} (v : IsValid c) where
  open v use {k, n, h, t, elem_pow, size_pow, fits, head_slot, tail_slot, head_in, tail_in}

  abbrev e : ℕ
  e = 2 ^ k

  abbrev s : ℕ
  s = 2 ^ n

  rings : ℕ
  rings = 2 ^ (32 - n - k)

  whole : rings * s * e ≡ 2 ^ 32
  unfolding rings
  whole =
      ap (λ x. x * e) (sym (pow-add (32 - n - k) n))
      ∙ sym (pow-add (32 - n - k + n) k)
      ∙ ap (λ x. 2 ^ x) {y = 32} (omega arith)

  e_pos : 0 < e
  e_pos = pow-pos k

  s_pos : 0 < s
  s_pos = pow-pos n

  rings_pos : 0 < rings
  unfolding rings
  rings_pos = pow-pos (32 - n - k)

  -- A ring takes at most 2 ^ 31 cells.
  pub ring-le : s * e ≤ 2 ^ 31
  ring-le = slots-le (2 ^ 31) e s (2 ^ (31 - n - k)) e_pos (pow-pos (31 - n - k)) half s (le_refl s)
    where
      half : 2 ^ (31 - n - k) * s * e ≡ 2 ^ 31
      half =
          ap (λ x. x * e) (sym (pow-add (31 - n - k) n))
          ∙ sym (pow-add (31 - n - k + n) k)
          ∙ ap (λ x. 2 ^ x) {y = 31} (omega arith)

  pub cells-le : (d : ℕ) → d ≤ s → d * e ≤ s * e
  cells-le d p = mul-le-mul_right e p

  size-le : s ≤ 2 ^ 31
  size-le = le_trans (omega (arith, mul-le-mul_left s e_pos)) ring-le

  pub head_index : c.head / c.elem_sz ≡ h
  head_index = (λ i. head_slot i / elem_pow i) ∙ mul-div_left h e_pos

  pub tail_index : c.tail / c.elem_sz ≡ t
  tail_index = (λ i. tail_slot i / elem_pow i) ∙ mul-div_left t e_pos

  pub used-eq : used c ≡ (h + s - t) % s
  used-eq = λ i. (head_index i + size_pow i - tail_index i) % size_pow i

  -- The contents, over the exponents of the invariant.
  pub contents-eq :
      contents c ≡ window (2 ^ n) (λ x. chunk c.buf (x * 2 ^ k) (2 ^ k)) t ((h + 2 ^ n - t) % 2 ^ n)
  contents-eq = λ i.
      window (size_pow i) (λ x. chunk c.buf (x * elem_pow i) (elem_pow i)) (tail_index i)
        (used-eq i)

  pub used-lt : used c < s
  used-lt = rw used-eq (mod-lt (h + s - t) s_pos)

  mask-eq : sub32 c.size 1 ≡ s - 1
  mask-eq = (λ i. sub32 (size_pow i) 1) ∙ omega (arith, size-le, s_pos)

  -- `circ_count` is the number of slots in use.
  pub circ_count-eq : circ_count c ≡ used c
  unfolding circ_count
  circ_count-eq =
      (λ i. bit_and (sub32 (head_slot i) (tail_slot i) / elem_pow i) (mask-eq i))
      ∙ bit_and-mask n (sub32 (h * e) (t * e) / e)
      ∙ diff_slots (2 ^ 32) e s rings e_pos rings_pos whole h t head_in (omega (arith, tail_in))
      ∙ sym used-eq

  -- `circ_space` is the number of free slots, of which one stays empty.
  pub circ_space-eq : circ_space c ≡ s - 1 - used c
  unfolding circ_space
  circ_space-eq =
      (λ i. bit_and (sub32 (tail_slot i) (u32 (head_slot i + elem_pow i)) / elem_pow i) (mask-eq i))
      ∙ bit_and-mask n (sub32 (t * e) (u32 (h * e + e)) / e)
      ∙ ap (λ x. sub32 (t * e) x / e % s) next
      ∙ diff_slots (2 ^ 32) e s rings e_pos rings_pos whole t (h + 1) tail_in
          (omega (arith, head_in))
      ∙ free_slots s h t head_in tail_in
      ∙ ap (λ x. s - 1 - x) (sym used-eq)
    where
      next : u32 (h * e + e) ≡ (h + 1) * e
      next = omega (arith, cells-le (h + 1) (omega (arith, head_in)), ring-le)

  -- The slots in use up to the end of the array.
  pub circ_count_to_end-eq : circ_count_to_end c ≡ (if ltb (used c) (s - t) then used c else s - t)
  unfolding circ_count_to_end
  circ_count_to_end-eq = (λ i. if ltb (count i) (end i) then count i else end i)
    where
      end : sub32 c.size (c.tail / c.elem_sz) ≡ s - t
      end = (λ i. sub32 (size_pow i) (tail_index i)) ∙ omega (arith, size-le, tail_in)

      count :
          bit_and (u32 (c.head / c.elem_sz + sub32 c.size (c.tail / c.elem_sz))) (sub32 c.size 1)
          ≡ used c
      count =
          (λ i. bit_and (u32 (head_index i + end i)) (mask-eq i))
          ∙ bit_and-mask n (u32 (h + (s - t)))
          ∙ ap (λ x. x % s) (omega (arith, size-le, head_in, tail_in))
          ∙ sym used-eq

  -- The free slots from the head to the end of the array.
  pub circ_space_to_end-eq :
      circ_space_to_end c
      ≡ (if leb (s - 1 - used c) (s - 1 - h) then s - 1 - used c else s - 1 - h + 1)
  unfolding circ_space_to_end
  circ_space_to_end-eq =
      (λ i. if leb (space i) (end i) then space i else u32 (end i + 1))
      ∙ ap (λ x. if leb (s - 1 - used c) (s - 1 - h) then s - 1 - used c else x)
          (omega (arith, size-le))
    where
      end : sub32 (sub32 c.size 1) (c.head / c.elem_sz) ≡ s - 1 - h
      end = (λ i. sub32 (mask-eq i) (head_index i)) ∙ omega (arith, size-le, head_in)

      shift : u32 (s - 1 - h + t) ≡ t + s - (h + 1)
      shift = omega (arith, size-le, head_in, tail_in)

      space :
          bit_and
            (u32 (sub32 (sub32 c.size 1) (c.head / c.elem_sz) + c.tail / c.elem_sz))
            (sub32 c.size 1)
          ≡ s - 1 - used c
      space =
          (λ i. bit_and (u32 (end i + tail_index i)) (mask-eq i))
          ∙ bit_and-mask n (u32 (s - 1 - h + t))
          ∙ ap (λ x. x % s) shift
          ∙ free_slots s h t head_in tail_in
          ∙ ap (λ x. s - 1 - x) (sym used-eq)

  -- An offset moves on by whole slots, round the ring.
  pub mask_slots :
      (i m : ℕ) (p : ℕ)
      → p ≡ i * e
      → i < s
      → m ≤ s
      → bit_and (u32 (p + u32 (m * c.elem_sz))) (u32 (sub32 c.size 1 * c.elem_sz)) ≡ (i + m) % s * e
  mask_slots i m p at hi hm =
      (λ j. bit_and (u32 (at j + u32 (m * elem_pow j))) (u32 (mask-eq j * elem_pow j)))
      ∙ ap (λ x. bit_and x (u32 ((s - 1) * e))) sum
      ∙ ap (λ x. bit_and ((i + m) * e) x) mask
      ∙ bit_and-scale k (i + m) (s - 1)
      ∙ ap (λ x. x * e) (bit_and-mask n (i + m))
    where
      sum : u32 (i * e + u32 (m * e)) ≡ (i + m) * e
      sum = omega (arith, cells-le (i + 1) (omega arith), cells-le m hm, ring-le, e_pos)

      mask : u32 ((s - 1) * e) ≡ (s - 1) * e
      mask = omega (arith, cells-le (s - 1) (omega arith), ring-le)

  pub advance-eq : (i m : ℕ) (p : ℕ) → p ≡ i * e → i < s → m ≤ s → advance c p m ≡ (i + m) % s * e
  unfolding advance
  advance-eq i m p at hi hm = mask_slots i m p at hi hm
