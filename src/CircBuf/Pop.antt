-- ===== src/CircBuf/Pop.antt =====
-- `ac_circ_buf_pop` and `ac_circ_buf_popm`.
use native.Mathlib.Nat.{mod-lt, mul-le-mul_right}
use mathlib.Core.Path.{ap₂}
use libac.Prelude.{
  ℕ, ◌+◌, ◌-◌, ◌*◌, ◌/◌, ◌%◌, ◌^◌, ◌≤◌, ◌<◌, ◌≡◌, ◌⊎◌, sym, ap, ◌∙◌, inl, inr, false, ◌&&◌, Option,
  none, some, List, [], ◌∷◌, ◌++◌, arith, length, leb, ltb, ◌==◌, Bool-cases,
}
use libac.Mem.{chunk, cell_at, mem_read, length-chunk, chunk_ext, cell_at-chunk}
use libac.CircBuf.{CircBuf, pop, popm, fetch, cells, advance, circ_count, circ_count_to_end}
use libac.CircBuf.Window.{window, split, window-append, window-split, used-shrink}
use libac.CircBuf.Valid.{
  IsValid, used, contents, contents-eq, used-eq, used-lt, cells-le, advance-eq, circ_count-eq,
  circ_count_to_end-eq, tail_index, contents_of_none,
}
use libac.CircBuf.Store.{cells-eq}
use libac.CircBuf.Push.{length-contents, chunk_all}

-- A queue that gives its oldest item.
pub spec_pop : List (List ℕ) → Option (List ℕ) × List (List ℕ)
spec_pop [] = (none, [])
spec_pop (x ∷ q) = (some x, q)

module _ {c : CircBuf} (v : IsValid c) where
  open v use {k, n, h, t, elem_pow, size_pow, head_in, tail_in, room}

  fetched : ℕ → CircBuf
  fetched m = record c { tail = advance c c.tail m }

  module _ (m : ℕ) (held : m ≤ used c) (to_end : t + m ≤ 2 ^ n) where
    abbrev out : List ℕ
    out = chunk c.buf c.tail (cells c m)

    fetch-fetched : fetch c m ≡ some (out, fetched m)
    unfolding fetch mem_read fetched
    fetch-fetched = ground (arith, cells-eq v m, room, v.tail_slot, cells-le v (t + m) to_end)

    fetched-IsValid : IsValid (fetched m)
    unfolding fetched
    fetched-IsValid = record {
      k = k;
      n = n;
      h = h;
      t = (t + m) % 2 ^ n;
      elem_pow = elem_pow;
      size_pow = size_pow;
      fits = v.fits;
      head_slot = v.head_slot;
      tail_slot = advance-eq v t m c.tail v.tail_slot tail_in (omega arith);
      head_in = head_in;
      tail_in = mod-lt (t + m) (omega arith);
      room = room;
      pointers = v.pointers;
    }

    abbrev slot_at : ℕ → List ℕ
    slot_at x = chunk c.buf (x * 2 ^ k) (2 ^ k)

    slot-out : (j : ℕ) → j < m → slot_at (t + j) ≡ chunk out ((0 + j) * 2 ^ k) (2 ^ k)
    slot-out j p = chunk_ext c.buf out ((t + j) * 2 ^ k) ((0 + j) * 2 ^ k) (2 ^ k) λ i q.
        ap (cell_at c.buf) (omega (arith, v.tail_slot))
        ∙ sym (
            cell_at-chunk c.buf c.tail (cells c m) (j * 2 ^ k + i)
              (omega (arith, cells-eq v m, mul-le-mul_right (2 ^ k) p)))
        ∙ ap (cell_at out) (omega arith)

    -- What was read comes in front of what is left.
    contents-fetched : contents c ≡ split out (2 ^ k) 0 m ++ contents (fetched m)
    unfolding fetched-IsValid fetched
    contents-fetched =
        contents-eq v
        ∙ ap (window (2 ^ n) slot_at t) parts
        ∙ window-append (2 ^ n) slot_at t m (u - m) tail_in
        ∙ ap₂ ◌++◌ (window-split (2 ^ n) slot_at out (2 ^ k) t 0 m to_end slot-out) (
            ap (window (2 ^ n) slot_at ((t + m) % 2 ^ n))
              (sym (used-shrink (2 ^ n) h t m head_in tail_in (omega (arith, used-eq v))))
            ∙ sym (contents-eq fetched-IsValid))
      where
        u : ℕ
        u = (h + 2 ^ n - t) % 2 ^ n

        parts : u ≡ m + (u - m)
        parts = omega (arith, used-eq v)

  -- What `ac_circ_buf_popm` of `m` items does: if the buffer holds `m` items before the end of its
  -- array, they are copied out.
  abbrev pub Pops : ℕ → Type 0
  Pops m =
      (c' : CircBuf) × (o : List ℕ) × (popm c m ≡ some (some o, c'))
      × IsValid c'
      × (length o ≡ m * c.elem_sz)
      × (contents c ≡ split o c.elem_sz 0 m ++ contents c')

  pops : (m : ℕ) → m ≤ used c → t + m ≤ 2 ^ n → Pops m
  unfolding popm
  pops m held to_end =
      let enough : ltb (circ_count_to_end c) m ≡ false =
        ground (arith, circ_count_to_end-eq v, used-lt v, tail_in) in
      (
        fetched m,
        out m held to_end,
        rw (enough, fetch-fetched m held to_end),
        fetched-IsValid m held to_end,
        length-chunk c.buf c.tail (cells c m) ∙ cells-eq v m ∙ ap (λ x. m * x) (sym elem_pow),
        contents-fetched m held to_end
            ∙ ap (λ x. split (out m held to_end) x 0 m ++ contents (fetched m)) (sym elem_pow),
      )

  short : (m : ℕ) → ¬ ((m ≤ used c) × (t + m ≤ 2 ^ n)) → popm c m ≡ some (none, c)
  unfolding popm
  short m over = elim (Bool-cases (ltb (circ_count_to_end c) m)) [
    | inl less ↦ rw less
    | inr enough ↦ absurd (
        over (
          ground (arith, circ_count_to_end-eq v, used-lt v, tail_in),
          ground (arith, circ_count_to_end-eq v, used-lt v, tail_in),
        ))
  ]

  -- `ac_circ_buf_popm` of `m` items from a valid buffer that holds at least `m`, none of them past the
  -- end of the array, copies out the oldest `m` and leaves a valid buffer with the rest; otherwise it
  -- returns -1 and changes nothing.
  pub popm_lem :
      (m : ℕ)
      → ((m ≤ length (contents c)) × (c.tail / c.elem_sz + m ≤ c.size) × Pops m)
        ⊎ (¬ ((m ≤ length (contents c)) × (c.tail / c.elem_sz + m ≤ c.size))
            × (popm c m ≡ some (none, c)))
  popm_lem m = elim (Bool-cases (leb m (used c) && leb (t + m) (2 ^ n))) [
    | inl ok ↦ inl (
      ground (arith, length-contents v),
      ground (arith, tail_index v, size_pow),
      pops m (ground arith) (ground arith),
    )
    | inr bad ↦ inr (
      λ (held, to_end). absurd (ground (arith, length-contents v, tail_index v, size_pow)),
      short m λ (held, to_end). absurd (ground arith),
    )
  ]

  first_item :
      (held : 1 ≤ used c) (to_end : t + 1 ≤ 2 ^ n)
      → contents c ≡ out 1 held to_end ∷ contents (fetched 1)
  first_item held to_end =
      contents-fetched 1 held to_end
      ∙ ap (λ x. x ∷ contents (fetched 1))
          (ap₂ (chunk (out 1 held to_end)) {x = 0 * 2 ^ k} {y = 0} (omega arith)
              (omega (arith, length-chunk c.buf c.tail (cells c 1), cells-eq v 1))
            ∙ chunk_all (out 1 held to_end))

  -- `ac_circ_buf_pop` from a valid buffer returns NULL and changes nothing if the buffer is empty, and
  -- else gives its oldest item and leaves the others. It reads inside the array and leaves a valid
  -- buffer.
  pub pop_lem :
      (o : Option (List ℕ)) × (c' : CircBuf) × (pop c ≡ some (o, c'))
      × IsValid c'
      × ((o, contents c') ≡ spec_pop (contents c))
  unfolding pop spec_pop
  pop_lem = elim (Bool-cases (circ_count c == 0)) [
    | inl nothing ↦
        let empty : contents c ≡ [] = contents_of_none c (ground (arith, circ_count-eq v)) in
        (none, c, rw nothing, v, ap (λ q. (none, q)) empty ∙ ap spec_pop (sym empty))
    | inr something ↦
        let held : 1 ≤ used c = ground (arith, circ_count-eq v) in
        let to_end : t + 1 ≤ 2 ^ n = omega (arith, tail_in) in
        (
          some (out 1 held to_end),
          fetched 1,
          rw (something, fetch-fetched 1 held to_end),
          fetched-IsValid 1 held to_end,
          ap spec_pop (sym (first_item held to_end)),
        )
  ]
