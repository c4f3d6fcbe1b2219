-- ===== src/Htable/Count.antt =====
-- The number of elements, which `count` keeps and `ac_htable_foreach` passes on.
use libac.Prelude.{
  ℕ, zero, suc, ◌+◌, ◌≤◌, ◌<◌, ◌≡◌, refl, ap, Bool-cases, inl, inr, List, [], ◌==◌, length,
  length-append, arith,
}
use libac.Htable.{Elem, Table, htable_sz, update, foreach, foreach_from}

-- The number of elements in the first buckets
pub total : ℕ → (ℕ → List Elem) → ℕ
total zero f = 0
total (suc n) f = length (f n) + total n f

pub total_none : (n : ℕ) → total n (λ b. []) ≡ 0
unfolding total
total_none zero = refl
total_none (suc n) = omega (arith, total_none n)

total_out :
    (n b : ℕ) (f : ℕ → List Elem) (l : List Elem) → n ≤ b → total n (update f b l) ≡ total n f
unfolding total
total_out zero b f l h = refl
total_out (suc n) b f l h = ground (arith, total_out n b f l (omega arith))

pub total-update :
    (n b : ℕ) (f : ℕ → List Elem) (l : List Elem)
    → b < n
    → total n (update f b l) + length (f b) ≡ total n f + length l
unfolding total
total-update zero b f l h = absurd (omega arith)
total-update (suc n) b f l h = elim (Bool-cases (n == b)) [
  | inl here ↦
      let nb : n ≡ b = ground arith in
      rw here (omega (arith, total_out n b f l (omega arith), ap (λ x. length (f x)) nb))
  | inr there ↦ rw there (omega (arith, total-update n b f l (ground arith)))
]

total-suc : (n : ℕ) (f : ℕ → List Elem) → total (n + 1) f ≡ length (f n) + total n f
unfolding total
total-suc n f = ap (λ m. total m f) {x = n + 1} {y = suc n} (omega arith)

length-foreach_from :
    (h : Table) (left bucket : ℕ)
    → length (foreach_from h left bucket) + total bucket h.buckets ≡ total (bucket + left) h.buckets
unfolding foreach_from
length-foreach_from h zero bucket =
    let same : total bucket h.buckets ≡ total (bucket + 0) h.buckets =
      ap (λ n. total n h.buckets) {x = bucket} {y = bucket + 0} (omega arith) in
    omega (arith, same)
length-foreach_from h (suc left) bucket =
    let ih = length-foreach_from h left (bucket + 1) in
    let same : total (bucket + 1 + left) h.buckets ≡ total (bucket + suc left) h.buckets =
      ap (λ n. total n h.buckets) {x = bucket + 1 + left} {y = bucket + suc left} (omega arith) in
    omega (
      arith,
      ih,
      total-suc bucket h.buckets,
      same,
      length-append (h.buckets bucket) (foreach_from h left (bucket + 1)),
    )

length-all : (h : Table) (n : ℕ) → length (foreach_from h n 0) ≡ total n h.buckets
unfolding total
length-all h n =
    let same : total (0 + n) h.buckets ≡ total n h.buckets =
      ap (λ m. total m h.buckets) {x = 0 + n} {y = n} (omega arith) in
    omega (arith, length-foreach_from h n 0, same)

-- `ac_htable_foreach` passes on as many elements as there are in the buckets.
pub length-foreach : (h : Table) → length (foreach h) ≡ total htable_sz h.buckets
unfolding foreach
length-foreach h = length-all h htable_sz
