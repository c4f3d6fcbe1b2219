-- ===== src/FileCopy/Laws.antt =====
-- `file_copy` on Linux copies all that is left of the source.
use mathlib.Core.List.{append_assoc, append-nil}
use libac.Prelude.{
  ℕ, zero, suc, ◌+◌, ◌-◌, ◌<◌, ◌≤◌, ◌≡◌, ◌⊎◌, refl, sym, ap, ◌∙◌, Bool-cases, inl, inr, Option,
  none, some, [], ◌++◌, ◌==◌, take, drop, take-append-drop, length-drop, length, if◌then◌else◌,
  if_true, if_false, arith,
}
use libac.Prelude.Int.{ℤ, pos, negsuc}
use libac.Prelude.Steps.{Steps}
use libac.Str.{Str}
use libac.FileCopy.{send_all, linux_copy}

module _ {W : Type 0} (sendfile : W → Option ℕ × W) (unread written : W → Str) where
  -- `sendfile` moves some bytes from the source to the destination, at least one unless the source is at
  -- its end, or fails.
  pub record IsSendfile : Type 0 where
    pub moved :
        (w w' : W) (n : ℕ)
        → sendfile w ≡ (some n, w')
        → (n ≤ length (unread w))
          × (unread w' ≡ drop n (unread w))
          × (written w' ≡ written w ++ take n (unread w))
    pub at_end : (w w' : W) → sendfile w ≡ (some 0, w') → unread w ≡ []

  -- A call that has moved some bytes
  abbrev pub Moves : W → W → Type 0
  Moves w w' = (n : ℕ) × (sendfile w ≡ (some n, w')) × (0 < n)

  -- Calls that moved bytes lead from `w` to a world in which the next one failed, and left `w'`.
  abbrev pub Fails : W → W → Type 0
  Fails w w' =
      (v : W) × Steps Moves w v
      × (sendfile v ≡ (none, w'))
      × (s : Str) × (written v ≡ written w ++ s)
      × (unread w ≡ s ++ unread v)

  abbrev Ended : ℕ → W → ℤ → W → Type 0
  Ended total w r w' =
      ((r ≡ negsuc 0) × Fails w w')
      ⊎ ((r ≡ pos (total + length (unread w)))
          × (written w' ≡ written w ++ unread w)
          × (unread w' ≡ []))

  abbrev Copies : ℕ → W → Option (ℤ × W) → Type 0
  Copies total w run = (r : ℤ) × (w' : W) × (run ≡ some (r, w')) × Ended total w r w'

  send_all-Copies :
      (f total : ℕ) (w : W)
      → IsSendfile
      → length (unread w) < f
      → Copies total w (send_all sendfile f total w)
  unfolding send_all
  send_all-Copies zero total w laws enough = absurd (omega arith)
  send_all-Copies (suc f) total w laws enough =
      round (sendfile w) refl (λ n w' less. send_all-Copies f (total + n) w' laws less)
    where
      carried :
          (n : ℕ) (w' : W) (r : ℤ) (w'' : W)
          → sendfile w ≡ (some n, w')
          → 0 < n
          → n ≤ length (unread w)
          → unread w' ≡ drop n (unread w)
          → written w' ≡ written w ++ take n (unread w)
          → length (unread w') ≡ length (unread w) - n
          → Ended (total + n) w' r w''
          → Ended total w r w''
      carried n w' r w'' run more le left wrote fewer
            (inl (failed, (v, steps, last, s, out, text))) =
          inl (
            failed,
            (
              v,
              Steps.then (n, run, more) steps,
              last,
              take n (unread w) ++ s,
              out ∙ ap (λ u. u ++ s) wrote ∙ append_assoc (written w) (take n (unread w)) s,
              sym (take-append-drop n (unread w))
                  ∙ ap (λ u. take n (unread w) ++ u) (sym left ∙ text)
                  ∙ sym (append_assoc (take n (unread w)) s (unread v)),
            ),
          )
      carried n w' r w'' run more le left wrote fewer (inr (count, text, end)) = inr (
        count ∙ ap pos (omega arith),
        text
            ∙ (λ i. wrote i ++ left i)
            ∙ append_assoc (written w) (take n (unread w)) (drop n (unread w))
            ∙ ap (λ u. written w ++ u) (take-append-drop n (unread w)),
        end,
      )

      round :
          (x : Option ℕ × W)
          → sendfile w ≡ x
          → ((n : ℕ) (w' : W)
              → length (unread w') < f
              → Copies (total + n) w' (send_all sendfile f (total + n) w'))
          → Copies total w (elim (x.0) as (λ o. Option (ℤ × W)) [
            | none ↦ some (negsuc 0, x.1)
            | some n ↦
                if n == 0
                then some (pos (total + n), x.1)
                else send_all sendfile f (total + n) (x.1)
          ])
      round (none, w') run ih = (
        negsuc 0,
        w',
        refl,
        inl (refl, (w, Steps.here, run, [], sym (append-nil (written w)), refl)),
      )
      round (some n, w') run ih =
          let (le, left, wrote) = laws.moved w w' n run in
          elim (Bool-cases (n == 0)) [
            | inl last ↦
                let zero_is : n ≡ 0 = ground arith in
                let empty : unread w ≡ [] =
                  laws.at_end w w' (run ∙ ap (λ k. (some k, w')) zero_is) in
                (
                  pos (total + n),
                  w',
                  if_true _ _ last,
                  inr (
                    ap pos (omega (arith, ap length empty)),
                    wrote
                        ∙ (λ i. written w ++ take (zero_is i) (empty i))
                        ∙ ap (λ u. written w ++ u) (sym empty),
                    left ∙ (λ i. drop (zero_is i) (empty i)),
                  ),
                )
            | inr more ↦
                let some_moved : 0 < n = ground arith in
                let fewer : length (unread w') ≡ length (unread w) - n =
                  ap length left ∙ length-drop n (unread w) in
                let (r, w'', run', ended) = ih n w' (omega arith) in
                (
                  r,
                  w'',
                  if_false _ _ more ∙ run',
                  carried n w' r w'' run some_moved le left wrote fewer ended,
                )
          ]

  -- `file_copy` on Linux, whatever number of bytes each `sendfile` moves, comes to an end within one more
  -- call than there are bytes left in the source. Either it has written all that was left in the
  -- source and returns the number of those bytes; or it returns -1, since a call of this run failed, and
  -- then the bytes that the calls before it took from the source have been written, in their order.
  pub linux_copy-Copies :
      (fuel : ℕ) (w : W)
      → IsSendfile
      → length (unread w) < fuel
      → (r : ℤ) × (w' : W) × (linux_copy sendfile fuel w ≡ some (r, w'))
        × (((r ≡ negsuc 0) × Fails w w')
            ⊎ ((r ≡ pos (length (unread w)))
                × (written w' ≡ written w ++ unread w)
                × (unread w' ≡ [])))
  unfolding linux_copy
  linux_copy-Copies fuel w laws enough =
      let (r, w', run, ended) = send_all-Copies fuel 0 w laws enough in
      (
        r,
        w',
        run,
        elim ended [
          | inl failed ↦ inl failed
          | inr (count, text, end) ↦ inr (count ∙ ap pos (omega arith), text, end)
        ],
      )
