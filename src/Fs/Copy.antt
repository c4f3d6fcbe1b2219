-- ===== src/Fs/Copy.antt =====
-- `ac_fs_copy`: the descriptors that it opens.
use libac.Prelude.{
  ℕ, ◌≡◌, refl, sym, ap, ◌∙◌, Bool, true, false, Bool-cases, inl, inr, Option, none, some, List,
  ◌∷◌, ltb, ◌==◌, if◌then◌else◌, if_true, if_false,
}
use libac.Prelude.Int.{ℤ, negsuc}
use libac.Prelude.Erase.{erase, erase-first, erase-second}
use libac.Str.{Str}
use libac.Fs.{
  Mode, read_only, create_new, overwrite, Alloc, allocated, unsupported, no_space, Calls,
  freebsd_fallocate, make_room, fill, copy_open, copy_to, fs_copy,
}

-- On FreeBSD the room is what `ftruncate` makes.
make_room-freebsd_fallocate :
    {W : Type 0} (calls : Calls W) (ofd size : ℕ) (w : W)
    → make_room (record calls { fallocate = freebsd_fallocate }) ofd size w
      ≡ calls.ftruncate ofd size w
unfolding make_room freebsd_fallocate
make_room-freebsd_fallocate calls ofd size w = refl

module _ {W : Type 0} (calls : Calls W) (held : W → List ℕ) where
  -- `held` are the open descriptors: `open` adds one that is not open, or none where it fails, `close`
  -- takes one away, and no other call changes them.
  pub record IsHeld : Type 0 where
    pub opened :
        (path : Str) (mode : Mode) (w w' : W) (fd : ℕ)
        → calls.open_file path mode w ≡ (some fd, w')
        → (held w' ≡ fd ∷ held w) × (erase fd (held w) ≡ held w)
    pub not_opened :
        (path : Str) (mode : Mode) (w w' : W)
        → calls.open_file path mode w ≡ (none, w')
        → held w' ≡ held w
    pub closed : (fd : ℕ) (w : W) → held (calls.close fd w) ≡ erase fd (held w)
    pub fallocate_same : (fd n : ℕ) (w : W) → held ((calls.fallocate fd n w).1) ≡ held w
    pub ftruncate_same : (fd n : ℕ) (w : W) → held ((calls.ftruncate fd n w).1) ≡ held w
    pub file_copy_same : (a b : ℕ) (w : W) → held ((calls.file_copy a b w).1) ≡ held w

  make_room-same : (ofd n : ℕ) (w : W) → IsHeld → held ((make_room calls ofd n w).1) ≡ held w
  unfolding make_room
  make_room-same ofd n w h = by_alloc (calls.fallocate ofd n w) (h.fallocate_same ofd n w)
    where
      by_alloc :
          (x : Alloc × W)
          → held (x.1) ≡ held w
          → held (
              (elim (x.0) as (λ a. Bool × W) [
                | allocated ↦ (true, x.1)
                | unsupported ↦ calls.ftruncate ofd n (x.1)
                | no_space ↦ (false, x.1)
              ]).1)
            ≡ held w
      by_alloc (allocated, w') e = e
      by_alloc (unsupported, w') e = h.ftruncate_same ofd n w' ∙ e
      by_alloc (no_space, w') e = e

  fill-same : (ifd ofd : ℕ) (w : W) → IsHeld → held ((fill calls ifd ofd w).1) ≡ held w
  unfolding fill
  fill-same ifd ofd w h =
      by_room (make_room calls ofd (calls.size ifd w) w) (make_room-same ofd (calls.size ifd w) w h)
    where
      by_room :
          (x : Bool × W)
          → held (x.1) ≡ held w
          → held (
              (elim (x.0) as (λ a. ℤ × W) [
                | true ↦ calls.file_copy ifd ofd (x.1)
                | false ↦ (negsuc 0, x.1)
              ]).1)
            ≡ held w
      by_room (true, w') e = h.file_copy_same ifd ofd w' ∙ e
      by_room (false, w') e = e

  copy_to-held :
      (ifd flags : ℕ) (to : Str) (w : W) (ms : List ℕ)
      → IsHeld
      → held w ≡ ifd ∷ ms
      → held ((copy_to calls ifd to flags w).1) ≡ ms
  unfolding copy_to copy_open
  copy_to-held ifd flags to w ms h e =
      by_open (calls.open_file to (if flags == 1 then overwrite else create_new) w) refl
    where
      by_open :
          (x : Option ℕ × W)
          → calls.open_file to (if flags == 1 then overwrite else create_new) w ≡ x
          → held (
              (elim (x.0) as (λ o. ℤ × W) [
                | none ↦ (negsuc 0, calls.close ifd (x.1))
                | some ofd ↦ copy_open calls ifd ofd (x.1)
              ]).1)
            ≡ ms
      by_open (none, w') run =
          h.closed ifd w' ∙ ap (erase ifd) (h.not_opened to _ w w' run ∙ e) ∙ erase-first ifd ms
      by_open (some ofd, w') run =
          let (now, apart) = h.opened to _ w w' ofd run in
          let w2 = (fill calls ifd ofd w').1 in
          h.closed ofd (calls.close ifd w2)
          ∙ ap (erase ofd) (
              h.closed ifd w2 ∙ ap (erase ifd) (fill-same ifd ofd w' h ∙ now ∙ ap (λ l. ofd ∷ l) e))
          ∙ erase-second ifd ofd ms (sym (ap (erase ofd) e) ∙ apart ∙ e)

  -- `ac_fs_copy` has closed every descriptor that it opened when it returns, on every way out: with
  -- unknown flags, when a file does not open, when there is no room and when the copy fails.
  pub fs_copy-held :
      (from to : Str) (flags : ℕ) (w : W)
      → IsHeld
      → held ((fs_copy calls from to flags w).1) ≡ held w
  unfolding fs_copy
  fs_copy-held from to flags w h = elim (Bool-cases (ltb 1 flags)) [
    | inl unknown ↦ ap (λ (r : ℤ × W). held (r.1)) (if_true _ _ unknown)
    | inr known ↦
        ap (λ (r : ℤ × W). held (r.1)) (if_false _ _ known)
        ∙ by_open (calls.open_file from read_only w) refl
  ]
    where
      by_open :
          (x : Option ℕ × W)
          → calls.open_file from read_only w ≡ x
          → held (
              (elim (x.0) as (λ o. ℤ × W) [
                | none ↦ (negsuc 0, x.1)
                | some ifd ↦ copy_to calls ifd to flags (x.1)
              ]).1)
            ≡ held w
      by_open (none, w') run = h.not_opened from read_only w w' run
      by_open (some ifd, w') run =
          copy_to-held ifd flags to w' (held w) h ((h.opened from read_only w w' ifd run).0)
