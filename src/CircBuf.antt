-- ===== src/CircBuf.antt =====
-- src/ac_circ_buf.c: a circular buffer over a `malloc`ed array of `size * elem_sz` cells.
--
-- `head` and `tail` are offsets in cells, the next item's to be written and the oldest item's. A
-- cell is a byte in a buffer of copies and a pointer in a buffer of pointers. The fields are `u32`,
-- so every sum, difference and product is taken modulo 2 ^ 32. An operation returns `none` where
-- the code would access memory outside an array.
pub mod Index
pub mod Window
pub mod Valid
pub mod Store
pub mod Push
pub mod Pushm
pub mod Pop
pub mod New
pub mod Foreach
pub mod Run
mod Tests
use Prim.Native.Nat.{bit_and}
use libac.Prelude.{
  ℕ, zero, suc, ◌+◌, ◌-◌, ◌*◌, ◌/◌, ◌%◌, ◌^◌, ◌≡◌, Bool, true, false, ◌&&◌, Option, none, some,
  List, [], ◌∷◌, arith, leb, ltb, ◌==◌, if◌then◌else◌, replicate,
}
use libac.Prelude.Int.{ℤ, pos, negsuc}
use libac.Mem.{memcpy, mem_read}

-- `enum { PTR_BUF = 0, CPY_BUF }`
pub data BufType : Type 0 where
  ptr_buf cpy_buf : BufType

-- `ac_circ_buf_t`
pub record CircBuf : Type 0 where
  pub buf : List ℕ
  pub head : ℕ
  pub tail : ℕ
  pub size : ℕ
  pub elem_sz : ℕ
  pub type : BufType

abbrev pub u32 : ℕ → ℕ
u32 x = x % 2 ^ 32

-- `u32` subtraction, of numbers below 2 ^ 32
abbrev pub sub32 : ℕ → ℕ → ℕ
sub32 a b = u32 (a + 2 ^ 32 - b)

unfoldable pub circ_count : CircBuf → ℕ
circ_count c = bit_and (sub32 c.head c.tail / c.elem_sz) (sub32 c.size 1)

unfoldable pub circ_space : CircBuf → ℕ
circ_space c = bit_and (sub32 c.tail (u32 (c.head + c.elem_sz)) / c.elem_sz) (sub32 c.size 1)

unfoldable pub circ_count_to_end : CircBuf → ℕ
circ_count_to_end c =
    let end = sub32 c.size (c.tail / c.elem_sz) in
    let n = bit_and (u32 (c.head / c.elem_sz + end)) (sub32 c.size 1) in
    if ltb n end then n else end

unfoldable pub circ_space_to_end : CircBuf → ℕ
circ_space_to_end c =
    let end = sub32 (sub32 c.size 1) (c.head / c.elem_sz) in
    let n = bit_and (u32 (end + c.tail / c.elem_sz)) (sub32 c.size 1) in
    if leb n end then n else u32 (end + 1)

unfoldable pub is_pow2 : ℕ → Bool
is_pow2 val = bit_and val (sub32 val 1) == 0

-- What `malloc` leaves in fresh memory is `junk`.
unfoldable pub new : ℕ → ℕ → ℕ → Option CircBuf
new junk size elem_sz =
    if is_pow2 size
    then some (
        if elem_sz == 0
        then record {
          buf = replicate size junk;
          head = 0;
          tail = 0;
          size = size;
          elem_sz = 1;
          type = ptr_buf;
        }
        else record {
          buf = replicate (size * elem_sz) junk;
          head = 0;
          tail = 0;
          size = size;
          elem_sz = elem_sz;
          type = cpy_buf;
        })
    else none

-- `ac_circ_buf_count`
unfoldable pub count : CircBuf → ℕ
unfolding circ_count
count c = circ_count c

-- `(pos + (n * elem_sz)) & ((size - 1) * elem_sz)`
unfoldable pub advance : CircBuf → ℕ → ℕ → ℕ
advance c p n = bit_and (u32 (p + u32 (n * c.elem_sz))) (u32 (sub32 c.size 1 * c.elem_sz))

-- The cells that `n` items take in the array: `n` pointers, or `n * elem_sz` bytes.
unfoldable pub cells : CircBuf → ℕ → ℕ
cells c n = elim c.type [ ptr_buf ↦ n | cpy_buf ↦ n * c.elem_sz ]

-- `ac_circ_buf_pushm` after its tests
unfoldable pub store : CircBuf → List ℕ → ℕ → Option (ℤ × CircBuf)
unfolding memcpy advance cells
store c src n = elim (memcpy c.buf c.head src (cells c n)) [
  | none ↦ none
  | some buf' ↦ some (pos 0, record c { buf = buf'; head = advance c c.head n })
]

-- `head = tail = 0`, in `ac_circ_buf_pushm` and `ac_circ_buf_reset`
unfoldable pub reset : CircBuf → CircBuf
reset c = record c { head = 0; tail = 0 }

-- `ac_circ_buf_pushm`
unfoldable pub pushm : CircBuf → List ℕ → ℕ → Option (ℤ × CircBuf)
unfolding circ_count circ_space_to_end store reset
pushm c src n =
    if ltb (circ_space_to_end c) n
    then if (circ_count c == 0) && leb n c.size then store (reset c) src n else some (negsuc 0, c)
    else store c src n

-- `ac_circ_buf_push`. One item is one pointer or `elem_sz` bytes.
unfoldable pub push : CircBuf → List ℕ → Option (ℤ × CircBuf)
unfolding circ_space store
push c item = if circ_space c == 0 then some (negsuc 0, c) else store c item 1

-- The read of `n` items at `tail` and the move of `tail`, in `ac_circ_buf_popm` and `_pop`
unfoldable pub fetch : CircBuf → ℕ → Option (List ℕ × CircBuf)
unfolding mem_read advance cells
fetch c n = elim (mem_read c.buf c.tail (cells c n)) [
  | none ↦ none
  | some out ↦ some (out, record c { tail = advance c c.tail n })
]

-- `ac_circ_buf_popm`. The inner option is what is written to `buf`, `none` with the result -1.
unfoldable pub popm : CircBuf → ℕ → Option (Option (List ℕ) × CircBuf)
unfolding circ_count_to_end fetch
popm c n =
    if ltb (circ_count_to_end c) n
    then some (none, c)
    else elim (fetch c n) [ none ↦ none | some (out, c') ↦ some (some out, c') ]

-- `ac_circ_buf_pop`. The inner option is the item at the returned pointer, `none` for NULL.
unfoldable pub pop : CircBuf → Option (Option (List ℕ) × CircBuf)
unfolding circ_count fetch
pop c =
    if circ_count c == 0
    then some (none, c)
    else elim (fetch c 1) [ none ↦ none | some (out, c') ↦ some (some out, c') ]

-- One round of `ac_circ_buf_foreach`: the item at offset `k` is passed to `action`, and those of the
-- later rounds are `rest`.
unfoldable pub foreach_round : CircBuf → ℕ → Option (List (List ℕ)) → Option (List (List ℕ))
unfolding mem_read cells
foreach_round c k rest = elim (mem_read c.buf k (cells c 1)) [
  | none ↦ none
  | some item ↦ elim rest [ none ↦ none | some items ↦ some (item ∷ items) ]
]

-- `ac_circ_buf_foreach` from round `i` on, with `left` rounds to go.
unfoldable pub foreach_from : CircBuf → ℕ → ℕ → Option (List (List ℕ))
foreach_from c zero i = some []
foreach_from c (suc left) i =
    foreach_round c
      (bit_and (u32 (c.tail + u32 (i * c.elem_sz))) (u32 (sub32 c.size 1 * c.elem_sz)))
      (foreach_from c left (i + 1))

-- `ac_circ_buf_foreach`, as the list of the items passed to `action`
unfoldable pub foreach : CircBuf → Option (List (List ℕ))
unfolding circ_count foreach_from foreach_round
foreach c = let n = circ_count c in if n == 0 then some [] else foreach_from c n 0
