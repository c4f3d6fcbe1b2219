-- ===== src/Uuid/Laws.antt =====
-- `ac_misc_gen_uuid4` on Linux: the buffer and the stream.
use libac.Prelude.{
  ℕ, suc, ◌<◌, ◌≤◌, ◌≡◌, ◌⊎◌, refl, sym, ap, ◌∙◌, Bool, true, false, Bool-cases, inl, inr, Option,
  none, some, List, [], ◌∷◌, ◌++◌, ltb, length, length-append, length-drop, drop, set, length-set,
  if◌then◌else◌, if_true, if_false, arith,
}
use libac.Prelude.Erase.{erase, erase-first}
use libac.Str.{Str}
use libac.Uuid.{uuid4_len, uuid_file, Calls, read_uuid, gen_uuid4}

-- All of an array but its last cell overwritten, and a NUL there
set_end :
    (s buf : List ℕ)
    → length buf ≡ suc (length s)
    → set (s ++ drop (length s) buf) (length s) 0 ≡ s ++ 0 ∷ []
set_end [] [] size = absurd (omega (arith, size))
set_end [] (c ∷ []) size = refl
set_end [] (c ∷ d ∷ buf) size = absurd (omega (arith, size))
set_end (x ∷ s) [] size = absurd (omega (arith, size))
set_end (x ∷ s) (c ∷ buf) size = ap (λ l. x ∷ l) (set_end s buf (omega (arith, size)))

module _ {W : Type 0} (calls : Calls W) (held : W → List ℕ) where
  -- `held` are the open streams. `fread` gives at most as many bytes as it is asked for.
  pub record IsStdio : Type 0 where
    pub opened :
        (path : Str) (w w' : W) (fp : ℕ)
        → calls.fopen path w ≡ (some fp, w')
        → held w' ≡ fp ∷ held w
    pub not_opened : (path : Str) (w w' : W) → calls.fopen path w ≡ (none, w') → held w' ≡ held w
    pub at_most : (fp n : ℕ) (w : W) → length ((calls.fread fp n w).0) ≤ n
    pub read_same : (fp n : ℕ) (w : W) → held ((calls.fread fp n w).1) ≡ held w
    pub closed : (fp : ℕ) (w : W) → held (calls.fclose fp w) ≡ erase fp (held w)

  -- What the result is for the bytes that were read
  abbrev pub Ends : List ℕ → Bool × List ℕ → Type 0
  Ends s (ok, buf) =
      ((ok ≡ false) × (length s < uuid4_len))
      ⊎ ((ok ≡ true) × (length s ≡ uuid4_len) × (buf ≡ s ++ 0 ∷ []))

  abbrev Reads : ℕ → W → List ℕ → Bool × List ℕ × W → Type 0
  Reads fp w open_fps run =
      (ok : Bool) × (buf : List ℕ) × (w' : W) × (run ≡ (ok, buf, w'))
      × (held w' ≡ open_fps)
      × (length buf ≡ suc uuid4_len)
      × Ends ((calls.fread fp uuid4_len w).0) (ok, buf)

  read_uuid-Reads :
      (fp : ℕ) (buf : List ℕ) (w : W)
      → IsStdio
      → length buf ≡ suc uuid4_len
      → Reads fp w (erase fp (held w)) (read_uuid calls fp buf w)
  unfolding read_uuid
  read_uuid-Reads fp buf w laws size =
      by_read (calls.fread fp uuid4_len w) (laws.at_most fp uuid4_len w)
        (laws.read_same fp uuid4_len w)
    where
      by_read :
          (x : Str × W)
          → length (x.0) ≤ uuid4_len
          → held (x.1) ≡ held w
          → (ok : Bool) × (b : List ℕ) × (w' : W) × ◌≡◌ {A = Bool × List ℕ × W}
              (if ltb (length (x.0)) uuid4_len
                then (false, x.0 ++ drop (length (x.0)) buf, calls.fclose fp (x.1))
                else (
                  true,
                  set (x.0 ++ drop (length (x.0)) buf) uuid4_len 0,
                  calls.fclose fp (x.1),
                ))
              (ok, b, w')
            × (held w' ≡ erase fp (held w))
            × (length b ≡ suc uuid4_len)
            × Ends (x.0) (ok, b)
      by_read (s, v) le same =
          let whole : length (s ++ drop (length s) buf) ≡ suc uuid4_len =
            omega (arith, length-append s (drop (length s) buf), length-drop (length s) buf) in
          let freed = laws.closed fp v ∙ ap (erase fp) same in
          elim (Bool-cases (ltb (length s) uuid4_len)) [
            | inl short ↦ (
              false,
              s ++ drop (length s) buf,
              calls.fclose fp v,
              if_true _ _ short,
              freed,
              whole,
              inl (refl, ground arith),
            )
            | inr long ↦
                let full : length s ≡ uuid4_len = ground arith in
                (
                  true,
                  set (s ++ drop (length s) buf) uuid4_len 0,
                  calls.fclose fp v,
                  if_false _ _ long,
                  freed,
                  length-set (s ++ drop (length s) buf) uuid4_len 0 ∙ whole,
                  inr (
                    refl,
                    full,
                    ap (λ n. set (s ++ drop (length s) buf) n 0) (sym full)
                        ∙ set_end s buf (omega (arith, full)),
                  ),
                )
          ]

  -- `ac_misc_gen_uuid4` on Linux, with a buffer of `AC_UUID4_LEN` + 1 bytes, writes only inside it and
  -- leaves the same streams open. It returns NULL exactly where the file cannot be opened, or has
  -- given fewer than `AC_UUID4_LEN` bytes; else the buffer is the bytes that were read and a NUL.
  pub gen_uuid4-Reads :
      (dst : List ℕ) (w : W)
      → IsStdio
      → length dst ≡ suc uuid4_len
      → (ok : Bool) × (buf : List ℕ) × (w' : W) × (gen_uuid4 calls dst w ≡ (ok, buf, w'))
        × (held w' ≡ held w)
        × (length buf ≡ suc uuid4_len)
        × (((ok ≡ false) × (calls.fopen uuid_file w ≡ (none, w')))
            ⊎ ((fp : ℕ) × (v : W) × (calls.fopen uuid_file w ≡ (some fp, v))
                × Ends ((calls.fread fp uuid4_len v).0) (ok, buf)))
  unfolding gen_uuid4
  gen_uuid4-Reads dst w laws size = by_open (calls.fopen uuid_file w) refl
    where
      by_open :
          (x : Option ℕ × W)
          → calls.fopen uuid_file w ≡ x
          → (ok : Bool) × (buf : List ℕ) × (w' : W) × (elim (x.0) as (λ o. Bool × List ℕ × W) [
            | none ↦ (false, dst, x.1)
            | some f ↦ read_uuid calls f dst (x.1)
          ]
              ≡ (ok, buf, w'))
            × (held w' ≡ held w)
            × (length buf ≡ suc uuid4_len)
            × (((ok ≡ false) × (x ≡ (none, w')))
                ⊎ ((fp : ℕ) × (v : W) × (x ≡ (some fp, v))
                    × Ends ((calls.fread fp uuid4_len v).0) (ok, buf)))
      by_open (none, v) e =
          (false, dst, v, refl, laws.not_opened uuid_file w v e, size, inl (refl, refl))
      by_open (some fp, v) e =
          let (ok, buf, u, run, same, whole, ended) = read_uuid-Reads fp dst v laws size in
          (
            ok,
            buf,
            u,
            run,
            same ∙ ap (erase fp) (laws.opened uuid_file w v fp e) ∙ erase-first fp (held w),
            whole,
            inr (fp, v, refl, ended),
          )
