-- ===== src/FileCopy/Freebsd.antt =====
-- `file_copy` on FreeBSD, with writes that may take fewer bytes than they are given.
use mathlib.Core.List.{append_assoc, append-nil}
use libac.Prelude.{
  ℕ, zero, suc, ◌+◌, ◌<◌, ◌≤◌, ◌≡◌, ◌⊎◌, refl, sym, ap, ◌∙◌, Bool-cases, inl, inr, Option, none,
  some, [], ◌∷◌, ◌++◌, ◌==◌, ltb, take, length, length-append, length-take, if◌then◌else◌, if_true,
  if_false, arith,
}
use libac.Prelude.Int.{ℤ, pos, negsuc}
use libac.Prelude.Steps.{Steps}
use libac.Str.{Str}
use libac.FileCopy.{write_all, freebsd_copy}

take_all : (n : ℕ) (s : Str) → n ≡ length s → take n s ≡ s
take_all zero [] e = refl
take_all zero (c ∷ s) e = absurd (omega (arith, e))
take_all (suc n) [] e = refl
take_all (suc n) (c ∷ s) e = ap (λ t. c ∷ t) (take_all n s (omega (arith, e)))

module _ {W : Type 0} (read : W → Option Str × W) (write : Str → W → Option ℕ × W)
    (unread written : W → Str) where
  -- `read` gives the next bytes of the source, none only at its end; `write` puts a part of what it is
  -- given, from its start, behind what is written. Either may fail.
  pub record IsReadWrite : Type 0 where
    pub got :
        (w w' : W) (s : Str)
        → read w ≡ (some s, w')
        → (unread w ≡ s ++ unread w') × (written w' ≡ written w)
    pub at_end : (w w' : W) → read w ≡ (some [], w') → unread w ≡ []
    pub put :
        (s : Str) (w w' : W) (n : ℕ)
        → write s w ≡ (some n, w')
        → (n ≤ length s) × (written w' ≡ written w ++ take n s) × (unread w' ≡ unread w)

  -- A round that has read something and written at least a byte of it
  abbrev pub Round : W → W → Type 0
  Round w u =
      (s : Str) × (v : W) × (n : ℕ) × (read w ≡ (some s, v)) × (write s v ≡ (some n, u)) × (0 < n)

  -- Rounds lead from `w` to a world in which `read`, or `write` of what was read, failed and left `w'`;
  -- they have written `t`.
  abbrev pub Fails : W → W → Type 0
  Fails w w' =
      (v : W) × Steps Round w v
      × (t : Str) × (written v ≡ written w ++ t)
      × ((read v ≡ (none, w'))
          ⊎ ((s : Str) × (u : W) × (read v ≡ (some s, u)) × (write s u ≡ (none, w'))))

  -- Rounds lead from `w` to one in which `write` took fewer bytes than it was given.
  abbrev pub Short : W → Type 0
  Short w =
      (v : W) × Steps Round w v
      × (s : Str) × (u : W) × (u' : W) × (n : ℕ) × (read v ≡ (some s, u))
      × (write s u ≡ (some n, u'))
      × (n < length s)

  abbrev Ended : ℕ → W → ℤ → W → Type 0
  Ended total w r w' =
      ((r ≡ negsuc 0) × Fails w w')
      ⊎ ((t : Str) × (r ≡ pos (total + length t))
          × (written w' ≡ written w ++ t)
          × ((t ≡ unread w) ⊎ Short w))

  abbrev Copies : ℕ → W → Option (ℤ × W) → Type 0
  Copies total w run = (r : ℤ) × (w' : W) × (run ≡ some (r, w')) × Ended total w r w'

  -- What comes after a round that has read `s` from `w` in `v` and written `n` bytes of it
  carried :
      (total n : ℕ) (s : Str) (w v u w' : W) (r : ℤ)
      → read w ≡ (some s, v)
      → write s v ≡ (some n, u)
      → 0 < n
      → n ≤ length s
      → written u ≡ written w ++ take n s
      → unread w ≡ s ++ unread u
      → Ended (total + n) u r w'
      → Ended total w r w'
  carried total n s w v u w' r got run more le wrote text (inl (failed, (x, steps, t, out, last))) =
      inl (
        failed,
        (
          x,
          Steps.then (s, v, n, got, run, more) steps,
          take n s ++ t,
          out ∙ ap (λ o. o ++ t) wrote ∙ append_assoc (written w) (take n s) t,
          last,
        ),
      )
  carried total n s w v u w' r got run more le wrote text (inr (t, count, out, rest)) = inr (
    take n s ++ t,
    count ∙ ap pos size,
    out ∙ ap (λ o. o ++ t) wrote ∙ append_assoc (written w) (take n s) t,
    elim (Bool-cases (ltb n (length s))) [
      | inl less ↦ inr (w, Steps.here, s, v, u, n, got, run, ground arith)
      | inr all ↦ elim rest [
        | inr (x, steps, s', y, y', m, got', run', less) ↦
            inr (x, Steps.then (s, v, n, got, run, more) steps, s', y, y', m, got', run', less)
        | inl whole ↦ inl ((λ i. take_all n s (ground arith) i ++ whole i) ∙ sym text)
      ]
    ],
  )
    where
      size : total + n + length t ≡ total + length (take n s ++ t)
      size = omega (arith, length-append (take n s) t, length-take n s)

  write_all-Copies :
      (f total : ℕ) (w : W)
      → IsReadWrite
      → length (unread w) < f
      → Copies total w (write_all read write f total w)
  unfolding write_all
  write_all-Copies zero total w laws enough = absurd (omega arith)
  write_all-Copies (suc f) total w laws enough =
      by_read (read w) refl (λ n w' less. write_all-Copies f (total + n) w' laws less)
    where
      by_write :
          (s : Str) (v : W) (x : Option ℕ × W)
          → read w ≡ (some s, v)
          → write s v ≡ x
          → 0 < length s
          → unread w ≡ s ++ unread v
          → written v ≡ written w
          → ((n : ℕ) (w' : W)
              → length (unread w') < f
              → Copies (total + n) w' (write_all read write f (total + n) w'))
          → Copies total w (elim (x.0) as (λ o. Option (ℤ × W)) [
            | none ↦ some (negsuc 0, x.1)
            | some n ↦
                if n == 0
                then some (pos (total + n), x.1)
                else write_all read write f (total + n) (x.1)
          ])
      by_write s v (none, w'') got run some_read text same ih = (
        negsuc 0,
        w'',
        refl,
        inl (refl, (w, Steps.here, [], sym (append-nil (written w)), inr (s, v, got, run))),
      )
      by_write s v (some n, w'') got run some_read text same ih =
          let (le, wrote, left) = laws.put s v w'' n run in
          let wrote' : written w'' ≡ written w ++ take n s = wrote ∙ ap (λ u. u ++ take n s) same in
          let text' : unread w ≡ s ++ unread w'' = text ∙ ap (λ u. s ++ u) (sym left) in
          let size : length (unread w) ≡ length s + length (unread w'') =
            ap length text' ∙ length-append s (unread w'') in
          elim (Bool-cases (n == 0)) [
            | inl nothing ↦
                let no_byte : n ≡ 0 = ground arith in
                (
                  pos (total + n),
                  w'',
                  if_true _ _ nothing,
                  inr (
                    [],
                    ap pos (omega (arith, no_byte)),
                    wrote' ∙ ap (λ k. written w ++ take k s) no_byte,
                    inr (w, Steps.here, s, v, w'', n, got, run, omega (arith, no_byte)),
                  ),
                )
            | inr more ↦
                let (r, u, run', ended) = ih n w'' (omega arith) in
                (
                  r,
                  u,
                  if_false _ _ more ∙ run',
                  carried total n s w v w'' u r got run (ground arith) le wrote' text' ended,
                )
          ]

      by_read :
          (x : Option Str × W)
          → read w ≡ x
          → ((n : ℕ) (w' : W)
              → length (unread w') < f
              → Copies (total + n) w' (write_all read write f (total + n) w'))
          → Copies total w (elim (x.0) as (λ o. Option (ℤ × W)) [
            | none ↦ some (negsuc 0, x.1)
            | some s ↦ elim s as (λ o. Option (ℤ × W)) [
              | [] ↦ some (pos total, x.1)
              | c ∷ t ↦ elim ((write (c ∷ t) (x.1)).0) as (λ o. Option (ℤ × W)) [
                | none ↦ some (negsuc 0, (write (c ∷ t) (x.1)).1)
                | some n ↦
                    if n == 0
                    then some (pos (total + n), (write (c ∷ t) (x.1)).1)
                    else write_all read write f (total + n) ((write (c ∷ t) (x.1)).1)
              ]
            ]
          ])
      by_read (none, v) run ih = (
        negsuc 0,
        v,
        refl,
        inl (refl, (w, Steps.here, [], sym (append-nil (written w)), inl run)),
      )
      by_read (some [], v) run ih =
          let (text, same) = laws.got w v [] run in
          (
            pos total,
            v,
            refl,
            inr (
              [],
              ap pos (omega arith),
              same ∙ sym (append-nil (written w)),
              inl (sym (laws.at_end w v run)),
            ),
          )
      by_read (some (c ∷ t), v) run ih =
          let (text, same) = laws.got w v (c ∷ t) run in
          by_write (c ∷ t) v (write (c ∷ t) v) run refl (omega arith) text same ih

  -- `file_copy` on FreeBSD, whatever number of bytes each `read` and each `write` moves, comes to an end
  -- within one more round than there are bytes left in the source. It returns -1 only if a call of this
  -- run failed, after rounds that have written a text behind what was there. Else it returns the number
  -- of the bytes that it has written behind what was there: all that was left in the source, unless
  -- some `write` of this run took fewer bytes than it was given.
  pub freebsd_copy-Copies :
      (fuel : ℕ) (w : W)
      → IsReadWrite
      → length (unread w) < fuel
      → (r : ℤ) × (w' : W) × (freebsd_copy read write fuel w ≡ some (r, w'))
        × (((r ≡ negsuc 0) × Fails w w')
            ⊎ ((t : Str) × (r ≡ pos (length t))
                × (written w' ≡ written w ++ t)
                × ((t ≡ unread w) ⊎ Short w)))
  unfolding freebsd_copy
  freebsd_copy-Copies fuel w laws enough =
      let (r, w', run, ended) = write_all-Copies fuel 0 w laws enough in
      (
        r,
        w',
        run,
        elim ended [
          | inl failed ↦ inl failed
          | inr (t, count, text, rest) ↦ inr (t, count ∙ ap pos (omega arith), text, rest)
        ],
      )
