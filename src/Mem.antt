-- ===== src/Mem.antt =====
-- Arrays of cells as C sees them: `memcpy`, and reads of a run of cells. A cell is a byte or a
-- pointer, here any number. `none` is an access outside an array, which C leaves undefined.
use mathlib.Core.Path.{ap₂}
use libac.Prelude.{
  ℕ, zero, suc, ◌+◌, ◌≤◌, ◌<◌, ◌≡◌, refl, ap, ◌≢◌, ◌&&◌, Option, none, some, List, [], ◌∷◌, arith,
  leb, if◌then◌else◌, length, set, get_or, length-set, ◌∙◌,
}

abbrev pub cell_at : List ℕ → ℕ → ℕ
cell_at buf i = get_or buf i 0

-- The `n` cells from index `off` on.
abbrev pub chunk : List ℕ → ℕ → ℕ → List ℕ
chunk buf off zero = []
chunk buf off (suc n) = cell_at buf off ∷ chunk buf (off + 1) n

-- The cells of `src`, stored from index `off` on.
abbrev pub blit : List ℕ → ℕ → List ℕ → List ℕ
blit dst off [] = dst
blit dst off (x ∷ src) = blit (set dst off x) (off + 1) src

-- `memcpy(dst + off, src, n)`
unfoldable pub memcpy : List ℕ → ℕ → List ℕ → ℕ → Option (List ℕ)
memcpy dst off src n =
    if leb (off + n) (length dst) && leb n (length src)
    then some (blit dst off (chunk src 0 n))
    else none

-- The `n` cells from `buf + off` on, as a copy.
unfoldable pub mem_read : List ℕ → ℕ → ℕ → Option (List ℕ)
mem_read buf off n = if leb (off + n) (length buf) then some (chunk buf off n) else none

pub length-chunk : (buf : List ℕ) (off n : ℕ) → length (chunk buf off n) ≡ n
length-chunk buf off zero = refl
length-chunk buf off (suc n) = ap suc (length-chunk buf (off + 1) n)

pub length-blit : (dst : List ℕ) (off : ℕ) (src : List ℕ) → length (blit dst off src) ≡ length dst
length-blit dst off [] = refl
length-blit dst off (x ∷ src) =
    omega (arith, length-blit (set dst off x) (off + 1) src, length-set dst off x)

pub cell_at-set_self : (buf : List ℕ) (i v : ℕ) → i < length buf → cell_at (set buf i v) i ≡ v
cell_at-set_self [] i v h = absurd (omega arith)
cell_at-set_self (x ∷ buf) zero v h = refl
cell_at-set_self (x ∷ buf) (suc i) v h = cell_at-set_self buf i v (omega arith)

pub cell_at-set_ne : (buf : List ℕ) (i j v : ℕ) → i ≢ j → cell_at (set buf i v) j ≡ cell_at buf j
cell_at-set_ne [] i j v h = refl
cell_at-set_ne (x ∷ buf) zero zero v h = absurd (h refl)
cell_at-set_ne (x ∷ buf) zero (suc j) v h = refl
cell_at-set_ne (x ∷ buf) (suc i) zero v h = refl
cell_at-set_ne (x ∷ buf) (suc i) (suc j) v h = cell_at-set_ne buf i j v (λ e. h (ap suc e))

-- Outside the stored run nothing changes.
pub cell_at-blit_before :
    (dst : List ℕ) (off : ℕ) (src : List ℕ) (j : ℕ)
    → j < off
    → cell_at (blit dst off src) j ≡ cell_at dst j
cell_at-blit_before dst off [] j h = refl
cell_at-blit_before dst off (x ∷ src) j h = omega (
  arith,
  cell_at-blit_before (set dst off x) (off + 1) src j (omega arith),
  cell_at-set_ne dst off j x (omega arith),
)

pub cell_at-blit_after :
    (dst : List ℕ) (off : ℕ) (src : List ℕ) (j : ℕ)
    → off + length src ≤ j
    → cell_at (blit dst off src) j ≡ cell_at dst j
cell_at-blit_after dst off [] j h = refl
cell_at-blit_after dst off (x ∷ src) j h = omega (
  arith,
  cell_at-blit_after (set dst off x) (off + 1) src j (omega arith),
  cell_at-set_ne dst off j x (omega arith),
)

-- Inside it, the stored cell is read back.
pub cell_at-blit_inside :
    (dst : List ℕ) (off : ℕ) (src : List ℕ) (i : ℕ)
    → i < length src
    → off + length src ≤ length dst
    → cell_at (blit dst off src) (off + i) ≡ cell_at src i
cell_at-blit_inside dst off [] i h fits = absurd (omega arith)
cell_at-blit_inside dst off (x ∷ src) zero h fits =
    ap (λ k. cell_at (blit (set dst off x) (off + 1) src) k) here
    ∙ cell_at-blit_before (set dst off x) (off + 1) src off (omega arith)
    ∙ cell_at-set_self dst off x (omega arith)
  where
    here : off + 0 ≡ off
    here = omega arith
cell_at-blit_inside dst off (x ∷ src) (suc i) h fits =
    ap (λ k. cell_at (blit (set dst off x) (off + 1) src) k) shift
    ∙ cell_at-blit_inside (set dst off x) (off + 1) src i (omega arith)
        (omega (arith, length-set dst off x))
  where
    shift : off + suc i ≡ off + 1 + i
    shift = omega arith

-- Two runs with the same cells are equal.
pub chunk_ext :
    (a b : List ℕ) (i j n : ℕ)
    → ((k : ℕ) → k < n → cell_at a (i + k) ≡ cell_at b (j + k))
    → chunk a i n ≡ chunk b j n
chunk_ext a b i j zero same = refl
chunk_ext a b i j (suc n) same = ap₂ ◌∷◌ head (chunk_ext a b (i + 1) (j + 1) n tail)
  where
    head : cell_at a i ≡ cell_at b j
    head = ap (cell_at a) (omega arith) ∙ same 0 (omega arith) ∙ ap (cell_at b) (omega arith)

    tail : (k : ℕ) → k < n → cell_at a (i + 1 + k) ≡ cell_at b (j + 1 + k)
    tail k h =
        ap (cell_at a) (omega arith) ∙ same (k + 1) (omega arith) ∙ ap (cell_at b) (omega arith)

pub cell_at-chunk :
    (buf : List ℕ) (off n i : ℕ) → i < n → cell_at (chunk buf off n) i ≡ cell_at buf (off + i)
cell_at-chunk buf off zero i h = absurd (omega arith)
cell_at-chunk buf off (suc n) zero h = ap (cell_at buf) (omega arith)
cell_at-chunk buf off (suc n) (suc i) h =
    cell_at-chunk buf (off + 1) n i (omega arith) ∙ ap (cell_at buf) (omega arith)
