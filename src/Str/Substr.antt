-- ===== src/Str/Substr.antt =====
-- `ac_str_substr`.
use libac.Prelude.{ℕ, ◌+◌, ◌≤◌, ◌<◌, ◌≡◌, ap, ◌∙◌, some, List, arith, length, length-set, set}
use libac.Mem.{
  memcpy, mem_read, chunk, blit, cell_at, length-chunk, length-blit, cell_at-blit_after,
  cell_at-blit_inside, cell_at-chunk, cell_at-set_self, cell_at-set_ne, chunk_ext,
}
use libac.Str.{substr}

-- `ac_str_substr` of `len` bytes from `start` on, inside both arrays, leaves them and a NUL at the
-- front of the destination, and changes no byte behind.
pub substr_lem :
    (src dest : List ℕ) (start len : ℕ)
    → start + len ≤ length src
    → len < length dest
    → (dest' : List ℕ) × (substr src dest start len ≡ some dest')
      × (length dest' ≡ length dest)
      × (chunk dest' 0 len ≡ chunk src start len)
      × (cell_at dest' len ≡ 0)
      × ((j : ℕ) → cell_at dest' (len + 1 + j) ≡ cell_at dest (len + 1 + j))
unfolding substr memcpy mem_read
substr_lem src dest start len inside room =
    let bytes = chunk src start len in
    let d1 = blit dest 0 (chunk bytes 0 len) in
    let n1 : length (chunk bytes 0 len) ≡ len = length-chunk bytes 0 len in
    let n2 : length d1 ≡ length dest = length-blit dest 0 (chunk bytes 0 len) in
    (
      set d1 len 0,
      ground (arith, length-chunk src start len, n2),
      length-set d1 len 0 ∙ n2,
      chunk_ext (set d1 len 0) src 0 start len (λ k h.
          cell_at-set_ne d1 len (0 + k) 0 (omega arith)
          ∙ cell_at-blit_inside dest 0 (chunk bytes 0 len) k (omega arith) (omega arith)
          ∙ cell_at-chunk bytes 0 len k h
          ∙ ap (cell_at bytes) {y = k} (omega arith)
          ∙ cell_at-chunk src start len k h),
      cell_at-set_self d1 len 0 (omega arith),
      λ j.
          cell_at-set_ne d1 len (len + 1 + j) 0 (omega arith)
          ∙ cell_at-blit_after dest 0 (chunk bytes 0 len) (len + 1 + j) (omega arith),
    )
