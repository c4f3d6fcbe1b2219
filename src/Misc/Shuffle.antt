-- ===== src/Misc/Shuffle.antt =====
-- `ac_misc_shuffle`.
use native.Mathlib.Nat.{mod-lt}
use libac.Prelude.{
  ℕ, zero, suc, ◌+◌, ◌%◌, ◌≤◌, ◌<◌, ◌≡◌, refl, sym, ap, ◌∙◌, List, [], ◌∷◌, ◌==◌, if◌then◌else◌,
  get_or, set, length, length-set, arith, ℕ_discrete,
}
use libac.Prelude.Int.{pos, negsuc}
use libac.Misc.{swap, shuffle_fisher_yates, shuffle}

abbrev tick : ℕ → ℕ → ℕ
tick x y = if y == x then 1 else 0

-- How often an element is in the array.
pub occurs : ℕ → List ℕ → ℕ
occurs x [] = 0
occurs x (y ∷ l) = tick x y + occurs x l

-- Storing an element adds it and takes out the one that was there.
occurs-set :
    (x : ℕ) (l : List ℕ) (i v : ℕ)
    → i < length l
    → occurs x (set l i v) + tick x (get_or l i 0) ≡ occurs x l + tick x v
unfolding occurs
occurs-set x [] i v h = absurd (omega arith)
occurs-set x (y ∷ l) zero v h = omega arith
occurs-set x (y ∷ l) (suc i) v h = omega (arith, occurs-set x l i v (omega arith))

get_or-set_self : (l : List ℕ) (i v : ℕ) → i < length l → get_or (set l i v) i 0 ≡ v
get_or-set_self [] i v h = absurd (omega arith)
get_or-set_self (x ∷ l) zero v h = refl
get_or-set_self (x ∷ l) (suc i) v h = get_or-set_self l i v (omega arith)

get_or-set_ne : (l : List ℕ) (i j v : ℕ) → ¬ (i ≡ j) → get_or (set l i v) j 0 ≡ get_or l j 0
get_or-set_ne [] i j v h = refl
get_or-set_ne (x ∷ l) zero zero v h = absurd (h refl)
get_or-set_ne (x ∷ l) zero (suc j) v h = refl
get_or-set_ne (x ∷ l) (suc i) zero v h = refl
get_or-set_ne (x ∷ l) (suc i) (suc j) v h = get_or-set_ne l i j v (λ e. h (ap suc e))

-- After the first store the place `n` still holds what it held.
held : (l : List ℕ) (r n : ℕ) → r < length l → get_or (set l r (get_or l n 0)) n 0 ≡ get_or l n 0
held l r n h = elim (ℕ_discrete r n) [
  | yes e ↦
      ap (λ k. get_or (set l r (get_or l n 0)) k 0) (sym e) ∙ get_or-set_self l r (get_or l n 0) h
  | no ne ↦ get_or-set_ne l r n (get_or l n 0) ne
]

swap-occurs :
    (x : ℕ) (l : List ℕ) (r n : ℕ)
    → r < length l
    → n < length l
    → (occurs x (swap l r n) ≡ occurs x l) × (length (swap l r n) ≡ length l)
unfolding swap
swap-occurs x l r n hr hn =
    let l1 = set l r (get_or l n 0) in
    let n1 : length l1 ≡ length l = length-set l r (get_or l n 0) in
    (
      omega (
        arith,
        occurs-set x l r (get_or l n 0) hr,
        occurs-set x l1 n (get_or l r 0) (omega arith),
        ap (tick x) (held l r n hr),
      ),
      length-set l1 n (get_or l r 0) ∙ n1,
    )

fisher_yates-occurs :
    (rnd : ℕ → ℕ) (x : ℕ) (l : List ℕ) (n : ℕ)
    → n ≤ length l
    → (occurs x (shuffle_fisher_yates rnd l n) ≡ occurs x l)
      × (length (shuffle_fisher_yates rnd l n) ≡ length l)
unfolding shuffle_fisher_yates
fisher_yates-occurs rnd x l zero h = (refl, refl)
fisher_yates-occurs rnd x l (suc n) h =
    let small : rnd n % suc n < suc n = mod-lt (rnd n) (omega arith) in
    let (o, len) = swap-occurs x l (rnd n % suc n) n (omega arith) (omega arith) in
    let (o', len') = fisher_yates-occurs rnd x (swap l (rnd n % suc n) n) n (omega arith) in
    (o' ∙ o, len' ∙ len)

-- `ac_misc_shuffle` of at most the whole array returns 0 and leaves each element as often in the array
-- as before, whatever the random numbers; for an unknown algorithm it returns -1 and changes nothing.
pub shuffle-occurs :
    (rnd : ℕ → ℕ) (base : List ℕ) (nmemb algo : ℕ)
    → nmemb ≤ length base
    → ((l : List ℕ) × (shuffle rnd base nmemb 0 ≡ (pos 0, l))
        × ((x : ℕ) → occurs x l ≡ occurs x base)
        × (length l ≡ length base))
      × (shuffle rnd base nmemb (algo + 1) ≡ (negsuc 0, base))
unfolding shuffle
shuffle-occurs rnd base nmemb algo h = (
  (
    shuffle_fisher_yates rnd base nmemb,
    refl,
    λ x. let (o, len) = fisher_yates-occurs rnd x base nmemb h in o,
    let (o, len) = fisher_yates-occurs rnd 0 base nmemb h in len,
  ),
  ground arith,
)
