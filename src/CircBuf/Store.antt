-- ===== src/CircBuf/Store.antt =====
-- What storing `n` items at the head does to the contents, when they fit before the array's end.
use native.Mathlib.Nat.{mod-lt, mul-le-mul_right}
use mathlib.Core.Path.{ap₂}
use libac.Prelude.{
  ℕ, ◌+◌, ◌-◌, ◌*◌, ◌%◌, ◌^◌, ◌≤◌, ◌<◌, ◌≡◌, refl, sym, ap, ◌∙◌, ◌⊎◌, inl, inr, some, List, ◌++◌,
  arith, length,
}
use libac.Prelude.Int.{pos}
use libac.Mem.{
  chunk, blit, cell_at, memcpy, length-chunk, length-blit, chunk_ext, cell_at-blit_before,
  cell_at-blit_after, cell_at-blit_inside, cell_at-chunk,
}
use libac.CircBuf.{CircBuf, ptr_buf, cpy_buf, store, cells, advance, BufType}
use libac.CircBuf.Window.{
  window, split, window_ext, window-append, window-split, in_use, head_slot, used-grow,
}
use libac.CircBuf.Valid.{IsValid, used, contents, used-eq, cells-le, advance-eq, contents-eq}

module _ (buf src : List ℕ) (e h m : ℕ) (src_fits : m * e ≤ length src) where
  abbrev after : List ℕ
  after = blit buf (h * e) (chunk src 0 (m * e))

  -- A slot outside the stored run is unchanged, and a slot inside it holds its item.
  pub slot-blit_outside :
      (i : ℕ) → (i < h) ⊎ (h + m ≤ i) → chunk after (i * e) e ≡ chunk buf (i * e) e
  slot-blit_outside i (inl below) = chunk_ext after buf (i * e) (i * e) e λ j p.
      cell_at-blit_before buf (h * e) (chunk src 0 (m * e)) (i * e + j)
        (omega (arith, mul-le-mul_right e below))
  slot-blit_outside i (inr above) = chunk_ext after buf (i * e) (i * e) e λ j p.
      cell_at-blit_after buf (h * e) (chunk src 0 (m * e)) (i * e + j)
        (omega (arith, mul-le-mul_right e above, length-chunk src 0 (m * e)))

  pub slot-blit_inside :
      (j : ℕ)
      → j < m
      → h * e + m * e ≤ length buf
      → chunk after ((h + j) * e) e ≡ chunk src ((0 + j) * e) e
  slot-blit_inside j p fits = chunk_ext after src ((h + j) * e) ((0 + j) * e) e λ i q.
      ap (cell_at after) (omega arith)
      ∙ cell_at-blit_inside buf (h * e) (chunk src 0 (m * e)) (j * e + i)
          (omega (arith, mul-le-mul_right e p, length-chunk src 0 (m * e)))
          (omega (arith, length-chunk src 0 (m * e)))
      ∙ cell_at-chunk src 0 (m * e) (j * e + i) (omega (arith, mul-le-mul_right e p))
      ∙ ap (cell_at src) (omega arith)

module _ {c : CircBuf} (v : IsValid c) where
  open v use {k, n, h, t, elem_pow, size_pow, head_in, tail_in, room, pointers}

  cells_at :
      (ty : BufType) (m : ℕ) → (ty ≡ ptr_buf → k ≡ 0) → cells (record c { type = ty }) m ≡ m * 2 ^ k
  unfolding cells
  cells_at ptr_buf m one = omega arith ∙ ap (λ x. m * 2 ^ x) (sym (one refl))
  cells_at cpy_buf m one = ap (λ x. m * x) elem_pow

  pub cells-eq : (m : ℕ) → cells c m ≡ m * 2 ^ k
  cells-eq m = cells_at c.type m pointers

  pub stored : List ℕ → ℕ → CircBuf
  stored src m = record c {
    buf = blit c.buf c.head (chunk src 0 (cells c m));
    head = advance c c.head m;
  }

  module _ (src : List ℕ) (m : ℕ) (to_end : h + m ≤ 2 ^ n) (given : m * 2 ^ k ≤ length src) where
    in_room : h * 2 ^ k + m * 2 ^ k ≤ 2 ^ n * 2 ^ k
    in_room = omega (arith, cells-le v (h + m) to_end)

    -- The copy stays inside both arrays.
    pub store-stored : store c src m ≡ some (pos 0, stored src m)
    unfolding store memcpy stored
    store-stored = ground (arith, cells-eq m, in_room, room, v.head_slot)

    pub stored-IsValid : IsValid (stored src m)
    unfolding stored
    stored-IsValid = record {
      k = k;
      n = n;
      h = (h + m) % 2 ^ n;
      t = t;
      elem_pow = elem_pow;
      size_pow = size_pow;
      fits = v.fits;
      head_slot = advance-eq v h m c.head v.head_slot head_in (omega arith);
      tail_slot = v.tail_slot;
      head_in = mod-lt (h + m) (omega arith);
      tail_in = tail_in;
      room = length-blit c.buf c.head (chunk src 0 (cells c m)) ∙ room;
      pointers = pointers;
    }

    pub used-stored : used (stored src m) ≡ ((h + m) % 2 ^ n + 2 ^ n - t) % 2 ^ n
    unfolding stored stored-IsValid
    used-stored = used-eq stored-IsValid

    abbrev items_after : ℕ → List ℕ
    items_after x = chunk (after c.buf src (2 ^ k) h m given) (x * 2 ^ k) (2 ^ k)

    stored-window :
        contents (stored src m)
        ≡ window (2 ^ n) items_after t (((h + m) % 2 ^ n + 2 ^ n - t) % 2 ^ n)
    unfolding stored stored-IsValid
    stored-window = contents-eq stored-IsValid ∙ (λ i.
        window (2 ^ n)
          (λ x. chunk (blit c.buf (v.head_slot i) (chunk src 0 (cells-eq m i))) (x * 2 ^ k) (2 ^ k))
          t (((h + m) % 2 ^ n + 2 ^ n - t) % 2 ^ n))

    -- The items of `src` come behind those that were in the buffer.
    pub contents-stored :
        used c + m < 2 ^ n → contents (stored src m) ≡ contents c ++ split src (2 ^ k) 0 m
    contents-stored free =
        stored-window
        ∙ ap (window (2 ^ n) items_after t)
            (used-grow (2 ^ n) h t m head_in tail_in (omega (arith, used-eq v)))
        ∙ window-append (2 ^ n) items_after t u m tail_in
        ∙ ap₂ ◌++◌ (old ∙ sym (contents-eq v)) new
      where
        u : ℕ
        u = (h + 2 ^ n - t) % 2 ^ n

        old :
            window (2 ^ n) items_after t u
            ≡ window (2 ^ n) (λ x. chunk c.buf (x * 2 ^ k) (2 ^ k)) t u
        old =
            window_ext (2 ^ n) items_after (λ x. chunk c.buf (x * 2 ^ k) (2 ^ k)) t u tail_in
              λ j p.
                slot-blit_outside c.buf src (2 ^ k) h m given ((t + j) % 2 ^ n)
                  (in_use (2 ^ n) h t m j head_in tail_in (omega (arith, used-eq v)) p)

        new : window (2 ^ n) items_after ((t + u) % 2 ^ n) m ≡ split src (2 ^ k) 0 m
        new =
            ap (λ x. window (2 ^ n) items_after x m) (head_slot (2 ^ n) h t head_in tail_in)
            ∙ window-split (2 ^ n) items_after src (2 ^ k) h 0 m to_end
                λ j p. slot-blit_inside c.buf src (2 ^ k) h m given j p (omega (arith, in_room))
