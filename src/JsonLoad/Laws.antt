-- ===== src/JsonLoad/Laws.antt =====
-- `ac_json_load_from_file` on a file without NUL bytes.
use mathlib.Core.List.{append_assoc, append-nil}
use libac.Prelude.{
  ℕ, zero, suc, ◌+◌, ◌<◌, ◌≡◌, ◌⊎◌, refl, sym, ap, ◌∙◌, false, inl, inr, Option, none, some, List,
  [], ◌∷◌, ◌++◌, ◌==◌, drop, length, length-append, arith,
}
use libac.Prelude.Int.{pos}
use libac.Prelude.Steps.{Steps}
use libac.Str.{Str, has_byte}
use libac.Prelude.Erase.{erase, erase-first}
use libac.JsonLoad.{printed, Calls, load_loop, load_from_fd, load_from_file}

printed_all : (s : Str) → has_byte 0 s ≡ false → printed s ≡ s
unfolding printed has_byte
printed_all [] plain = refl
printed_all (c ∷ s) plain =
    let rest = printed_all s (ground arith) in
    let other : (c == 0) ≡ false = ground arith in ground (arith, rest, other)

has_byte-front : (a b : Str) → has_byte 0 (a ++ b) ≡ false → has_byte 0 a ≡ false
unfolding has_byte
has_byte-front [] b plain = refl
has_byte-front (c ∷ a) b plain =
    let rest = has_byte-front a b (ground arith) in
    let other : (c == 0) ≡ false = ground arith in ground (arith, rest, other)

has_byte-back : (a b : Str) → has_byte 0 (a ++ b) ≡ false → has_byte 0 b ≡ false
unfolding has_byte
has_byte-back [] b plain = plain
has_byte-back (c ∷ a) b plain = has_byte-back a b (ground arith)

module _ {W : Type 0} (calls : Calls W) (text_of : Str → W → Str) (contents unread : ℕ → W → Str)
    (held : W → List ℕ) where
  -- `text_of` is the text of a file, `contents` that of the file behind a descriptor, `unread` what of
  -- it is behind the position, `held` the open descriptors. `read` gives the next bytes, none only at
  -- the end, or fails.
  pub record IsFiles : Type 0 where
    pub opened :
        (path : Str) (w w' : W) (fd : ℕ)
        → calls.open_file path w ≡ (some fd, w')
        → (held w' ≡ fd ∷ held w) × (contents fd w' ≡ text_of path w)
    pub not_opened :
        (path : Str) (w w' : W) → calls.open_file path w ≡ (none, w') → held w' ≡ held w
    pub sought :
        (fd n : ℕ) (w : W)
        → (unread fd (calls.lseek fd (pos n) w) ≡ drop n (contents fd w))
          × (held (calls.lseek fd (pos n) w) ≡ held w)
    pub got :
        (fd : ℕ) (w w' : W) (s : Str)
        → calls.read fd w ≡ (some s, w')
        → unread fd w ≡ s ++ unread fd w'
    pub at_end : (fd : ℕ) (w w' : W) → calls.read fd w ≡ (some [], w') → unread fd w ≡ []
    pub read_same : (fd : ℕ) (w : W) → held ((calls.read fd w).1) ≡ held w
    pub closed : (fd : ℕ) (w : W) → held (calls.close fd w) ≡ erase fd (held w)

  -- A call of `read` that gives some bytes
  abbrev pub Gets : ℕ → W → W → Type 0
  Gets fd w v = (s : Str) × (calls.read fd w ≡ (some s, v)) × (0 < length s)

  -- Calls that gave bytes lead from `w` to a world in which `rest` was still to be read, and the next
  -- call failed and left `w'`.
  abbrev pub Fails : ℕ → W → Str → W → Type 0
  Fails fd w rest w' =
      (v : W) × Steps (Gets fd) w v × (unread fd v ≡ rest) × (calls.read fd v ≡ (none, w'))

  abbrev Loads : ℕ → W → Str → Str → List ℕ → Option (Str × W) → Type 0
  Loads fd w out text open_fds run =
      (s : Str) × (rest : Str) × (w' : W) × (run ≡ some (out ++ s, w'))
      × (text ≡ s ++ rest)
      × (held w' ≡ open_fds)
      × ((rest ≡ []) ⊎ Fails fd w rest w')

  load_loop-Loads :
      (f fd : ℕ) (out : Str) (w : W)
      → IsFiles
      → has_byte 0 (unread fd w) ≡ false
      → length (unread fd w) < f
      → Loads fd w out (unread fd w) (held w) (load_loop calls f fd out w)
  unfolding load_loop
  load_loop-Loads zero fd out w laws plain enough = absurd (omega arith)
  load_loop-Loads (suc f) fd out w laws plain enough =
      round (calls.read fd w) refl
        (λ out' w' plain' less. load_loop-Loads f fd out' w' laws plain' less)
    where
      later :
          (t : Str) (w' : W) (rest : Str) (w'' : W)
          → calls.read fd w ≡ (some t, w')
          → 0 < length t
          → (rest ≡ []) ⊎ Fails fd w' rest w''
          → (rest ≡ []) ⊎ Fails fd w rest w''
      later t w' rest w'' run some_read (inl whole) = inl whole
      later t w' rest w'' run some_read (inr (v, steps, left, last)) =
          inr (v, Steps.then (t, run, some_read) steps, left, last)

      round :
          (x : Option Str × W)
          → calls.read fd w ≡ x
          → ((out' : Str) (w' : W)
              → has_byte 0 (unread fd w') ≡ false
              → length (unread fd w') < f
              → Loads fd w' out' (unread fd w') (held w') (load_loop calls f fd out' w'))
          → Loads fd w out (unread fd w) (held w) (elim (x.0) as (λ o. Option (Str × W)) [
            | none ↦ some (out, x.1)
            | some s ↦ elim s as (λ o. Option (Str × W)) [
              | [] ↦ some (out, x.1)
              | c ∷ t ↦ load_loop calls f fd (out ++ printed (c ∷ t)) (x.1)
            ]
          ])
      round (none, w') run ih = (
        [],
        unread fd w,
        w',
        ap (λ u. some (u, w')) (sym (append-nil out)),
        refl,
        ap (λ (r : Option Str × W). held (r.1)) (sym run) ∙ laws.read_same fd w,
        inr (w, Steps.here, refl, run),
      )
      round (some [], w') run ih = (
        [],
        unread fd w,
        w',
        ap (λ u. some (u, w')) (sym (append-nil out)),
        refl,
        ap (λ (r : Option Str × W). held (r.1)) (sym run) ∙ laws.read_same fd w,
        inl (laws.at_end fd w w' run),
      )
      round (some (c ∷ t), w') run ih =
          let text : unread fd w ≡ (c ∷ t) ++ unread fd w' = laws.got fd w w' (c ∷ t) run in
          let plain' : has_byte 0 ((c ∷ t) ++ unread fd w') ≡ false =
            ap (has_byte 0) (sym text) ∙ plain in
          let chunk : printed (c ∷ t) ≡ c ∷ t =
            printed_all (c ∷ t) (has_byte-front (c ∷ t) (unread fd w') plain') in
          let size : length (unread fd w) ≡ suc (length t) + length (unread fd w') =
            ap length text ∙ length-append (c ∷ t) (unread fd w') in
          let (s, rest, w'', run', text', same, ended) =
            ih (out ++ printed (c ∷ t)) w' (has_byte-back (c ∷ t) (unread fd w') plain')
              (omega arith) in
          (
            (c ∷ t) ++ s,
            rest,
            w'',
            run'
                ∙ ap (λ u. some ((out ++ u) ++ s, w'')) chunk
                ∙ ap (λ u. some (u, w'')) (append_assoc out (c ∷ t) s),
            text ∙ ap (λ u. (c ∷ t) ++ u) text' ∙ sym (append_assoc (c ∷ t) s rest),
            same ∙ ap (λ (r : Option Str × W). held (r.1)) (sym run) ∙ laws.read_same fd w,
            later (c ∷ t) w' rest w'' run (omega arith) ended,
          )

  load_from_fd-Loads :
      (fuel fd n : ℕ) (w : W)
      → IsFiles
      → has_byte 0 (drop n (contents fd w)) ≡ false
      → length (drop n (contents fd w)) < fuel
      → Loads fd
          (calls.lseek fd (pos n) w)
          []
          (drop n (contents fd w))
          (held w)
          (load_from_fd calls fuel fd (pos n) w)
  unfolding load_from_fd
  load_from_fd-Loads fuel fd n w laws plain enough =
      let v : W = calls.lseek fd (pos n) w in
      let (left, same) = laws.sought fd n w in
      let (s, rest, w', run, text, same', ended) =
        load_loop-Loads fuel fd [] v laws (ap (has_byte 0) left ∙ plain)
          (omega (arith, ap length left)) in
      (s, rest, w', run, sym left ∙ text, same' ∙ same, ended)

  -- What is returned where `open` has given `x`
  abbrev pub Loaded : Str → ℕ → W → Option ℕ × W → Option Str → W → Type 0
  Loaded file n w x r w' =
      ((r ≡ none) × (x ≡ (none, w')))
      ⊎ ((fd : ℕ) × (v : W) × (s : Str) × (rest : Str) × (u : W) × (x ≡ (some fd, v))
          × (r ≡ some s)
          × (w' ≡ calls.close fd u)
          × (drop n (text_of file w) ≡ s ++ rest)
          × ((rest ≡ []) ⊎ Fails fd (calls.lseek fd (pos n) v) rest u))

  -- `ac_json_load_from_file` with an offset that is not negative, and a file that has no NUL byte from
  -- there on, comes to an end within one more `read` than there are bytes to be read, however many
  -- bytes each call gives, and leaves the same descriptors open. It returns NULL if the file cannot be
  -- opened; else the text from the offset on: all of it, or, if a call of `read` of this run failed,
  -- exactly what is before the bytes that were still to be read then.
  pub load_from_file-Loads :
      (fuel n : ℕ) (file : Str) (w : W)
      → IsFiles
      → has_byte 0 (drop n (text_of file w)) ≡ false
      → length (drop n (text_of file w)) < fuel
      → (r : Option Str) × (w' : W) × (load_from_file calls fuel file (pos n) w ≡ some (r, w'))
        × (held w' ≡ held w)
        × Loaded file n w (calls.open_file file w) r w'
  unfolding load_from_file
  load_from_file-Loads fuel n file w laws plain enough = by_open (calls.open_file file w) refl
    where
      by_open :
          (x : Option ℕ × W)
          → calls.open_file file w ≡ x
          → (r : Option Str) × (w' : W) × ((elim (x.0) as (λ o. Option (Option Str × W)) [
            | none ↦ some (none, x.1)
            | some m ↦
                elim (load_from_fd calls fuel m (pos n) (x.1)) as (λ o. Option (Option Str × W)) [
                  | none ↦ none
                  | some (ptr, w'') ↦ some (some ptr, calls.close m w'')
                ]
          ])
              ≡ some (r, w'))
            × (held w' ≡ held w)
            × Loaded file n w x r w'
      by_open (none, v) e = (none, v, refl, laws.not_opened file w v e, inl (refl, refl))
      by_open (some fd, v) e =
          let (added, same_text) = laws.opened file w v fd e in
          let same : drop n (contents fd v) ≡ drop n (text_of file w) = ap (drop n) same_text in
          let (s, rest, u, run, text, same_held, ended) =
            load_from_fd-Loads fuel fd n v laws (ap (has_byte 0) same ∙ plain)
              (omega (arith, ap length same)) in
          (
            some s,
            calls.close fd u,
            rw (run) refl,
            laws.closed fd u ∙ ap (erase fd) (same_held ∙ added) ∙ erase-first fd (held w),
            inr (fd, v, s, rest, u, refl, refl, refl, sym same ∙ text, ended),
          )
