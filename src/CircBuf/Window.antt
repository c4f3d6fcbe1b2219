-- ===== src/CircBuf/Window.antt =====
-- A run of slots round a ring of `s` slots, and the items of a plain array.
use libac.Prelude.{
  ℕ, zero, suc, ◌+◌, ◌-◌, ◌*◌, ◌%◌, ◌≤◌, ◌<◌, ◌≡◌, refl, sym, ap, ◌∙◌, ◌⊎◌, inl, inr, List, [], ◌∷◌,
  ◌++◌, arith, length, dec_lt,
}
use mathlib.Core.Path.{ap₂}
use native.Mathlib.Nat.{mod-add-mod, mod-eq_of_lt, mod-lt, mod-eq-sub-mod}
use libac.Mem.{chunk}

-- The items of `src`, an array of items of `e` cells, from item `o` on.
abbrev pub split : List ℕ → ℕ → ℕ → ℕ → List (List ℕ)
split src e o zero = []
split src e o (suc m) = chunk src (o * e) e ∷ split src e (o + 1) m

module _ (s : ℕ) where
  -- The `m` items from slot `i` on, going round at `s`.
  abbrev pub window : (ℕ → List ℕ) → ℕ → ℕ → List (List ℕ)
  window f i zero = []
  window f i (suc m) = f i ∷ window f ((i + 1) % s) m

  pub length-window : (f : ℕ → List ℕ) (i m : ℕ) → length (window f i m) ≡ m
  length-window f i zero = refl
  length-window f i (suc m) = ap suc (length-window f ((i + 1) % s) m)

  step-mod : (i j : ℕ) → ((i + 1) % s + j) % s ≡ (i + suc j) % s
  step-mod i j = mod-add-mod (i + 1) s j ∙ ap (λ x. x % s) (omega arith)

  pub window_ext :
      (f g : ℕ → List ℕ) (i m : ℕ)
      → i < s
      → ((j : ℕ) → j < m → f ((i + j) % s) ≡ g ((i + j) % s))
      → window f i m ≡ window g i m
  window_ext f g i zero h same = refl
  window_ext f g i (suc m) h same = ap₂ ◌∷◌ (ap f (sym here) ∙ same 0 (omega arith) ∙ ap g here) (
      window_ext f g ((i + 1) % s) m (mod-lt (i + 1) (omega arith))
        λ j p. ap f (step-mod i j) ∙ same (suc j) (omega arith) ∙ ap g (sym (step-mod i j)))
    where
      here : (i + 0) % s ≡ i
      here = ap (λ x. x % s) (omega arith) ∙ mod-eq_of_lt h

  pub window-append :
      (f : ℕ → List ℕ) (i a b : ℕ)
      → i < s
      → window f i (a + b) ≡ window f i a ++ window f ((i + a) % s) b
  window-append f i zero b h = ap₂ (window f) (sym here) (omega arith)
    where
      here : (i + 0) % s ≡ i
      here = ap (λ x. x % s) (omega arith) ∙ mod-eq_of_lt h
  window-append f i (suc a) b h =
      ap (window f i) shift
      ∙ ap (◌∷◌ (f i)) (
          window-append f ((i + 1) % s) a b (mod-lt (i + 1) (omega arith))
          ∙ ap (λ x. window f ((i + 1) % s) a ++ window f x b) (step-mod i a))
    where
      shift : suc a + b ≡ suc (a + b)
      shift = omega arith

  -- A run that does not reach the end of the ring is a run of a plain array.
  pub window-split :
      (f : ℕ → List ℕ) (src : List ℕ) (e i o m : ℕ)
      → i + m ≤ s
      → ((j : ℕ) → j < m → f (i + j) ≡ chunk src ((o + j) * e) e)
      → window f i m ≡ split src e o m
  window-split f src e i o zero h same = refl
  window-split f src e i o (suc zero) h same =
      ap (λ x. x ∷ [])
        (ap f (omega arith) ∙ same 0 (omega arith) ∙ ap (λ x. chunk src (x * e) e) (omega arith))
  window-split f src e i o (suc (suc m)) h same =
      ap₂ ◌∷◌
        (ap f (omega arith) ∙ same 0 (omega arith) ∙ ap (λ x. chunk src (x * e) e) (omega arith))
        (ap (λ x. window f x (suc m)) (mod-eq_of_lt (omega arith))
          ∙ window-split f src e (i + 1) (o + 1) (suc m) (omega arith) λ j p.
            ap f (omega arith)
            ∙ same (suc j) (omega arith)
            ∙ ap (λ x. chunk src (x * e) e) (omega arith))

  -- The slots in use stay clear of `m` free ones behind them.
  pub in_use :
      (h t m j : ℕ)
      → h < s
      → t < s
      → m + (h + s - t) % s < s
      → j < (h + s - t) % s
      → ((t + j) % s < h) ⊎ (h + m ≤ (t + j) % s)
  in_use h t m j hh ht free hj = elim (dec_lt h t) [
    | yes lt ↦
        let len : (h + s - t) % s ≡ h + s - t = mod-eq_of_lt (omega arith) in
        elim (dec_lt (t + j) s) [
          | yes low ↦ inr (omega (arith, mod-eq_of_lt low))
          | no high ↦
              let past : (t + j) % s ≡ t + j - s =
                mod-eq-sub-mod (omega arith) ∙ mod-eq_of_lt (omega arith) in
              inl (omega arith)
        ]
    | no ge ↦
        let len : (h + s - t) % s ≡ h - t =
          mod-eq-sub-mod (omega arith)
          ∙ ap (λ x. x % s) (omega arith)
          ∙ mod-eq_of_lt (omega arith) in
        inl (omega (arith, mod-eq_of_lt {n = t + j} {m = s} (omega arith)))
  ]

  -- The slot behind those in use is the head.
  pub head_slot : (h t : ℕ) → h < s → t < s → (t + (h + s - t) % s) % s ≡ h
  head_slot h t hh ht = elim (dec_lt h t) [
    | yes lt ↦
        ap (λ x. (t + x) % s) (mod-eq_of_lt (omega arith))
        ∙ mod-eq-sub-mod {n = t + (h + s - t)} (omega arith)
        ∙ ap (λ x. x % s) (omega arith)
        ∙ mod-eq_of_lt hh
    | no ge ↦
        let len : (h + s - t) % s ≡ h - t =
          mod-eq-sub-mod (omega arith)
          ∙ ap (λ x. x % s) (omega arith)
          ∙ mod-eq_of_lt (omega arith) in
        ap (λ x. (t + x) % s) len ∙ ap (λ x. x % s) (omega arith) ∙ mod-eq_of_lt hh
  ]

  -- Moving the head by `m` free slots adds `m` to the slots in use.
  pub used-grow :
      (h t m : ℕ)
      → h < s
      → t < s
      → (h + s - t) % s + m < s
      → ((h + m) % s + s - t) % s ≡ (h + s - t) % s + m
  used-grow h t m hh ht free = elim (dec_lt h t) [
    | yes lt ↦
        let len : (h + s - t) % s ≡ h + s - t = mod-eq_of_lt (omega arith) in
        let head : (h + m) % s ≡ h + m = mod-eq_of_lt (omega arith) in
        ap (λ x. (x + s - t) % s) head ∙ mod-eq_of_lt (omega arith) ∙ omega arith
    | no ge ↦
        let len : (h + s - t) % s ≡ h - t =
          mod-eq-sub-mod (omega arith)
          ∙ ap (λ x. x % s) (omega arith)
          ∙ mod-eq_of_lt (omega arith) in
        elim (dec_lt (h + m) s) [
          | yes low ↦
              ap (λ x. (x + s - t) % s) (mod-eq_of_lt low)
              ∙ mod-eq-sub-mod {n = h + m + s - t} (omega arith)
              ∙ mod-eq_of_lt {n = h + m + s - t - s} {m = s} (omega arith)
              ∙ omega arith
          | no high ↦
              let wrapped : (h + m) % s ≡ h + m - s =
                mod-eq-sub-mod {n = h + m} {m = s} (omega arith)
                ∙ mod-eq_of_lt {n = h + m - s} {m = s} (omega arith) in
              ap (λ x. (x + s - t) % s) wrapped
              ∙ mod-eq_of_lt {n = h + m - s + s - t} {m = s} (omega arith)
              ∙ omega arith
        ]
  ]

  -- Moving the tail by `m` used slots takes `m` from the slots in use.
  pub used-shrink :
      (h t m : ℕ)
      → h < s
      → t < s
      → m ≤ (h + s - t) % s
      → (h + s - (t + m) % s) % s ≡ (h + s - t) % s - m
  used-shrink h t m hh ht taken = elim (dec_lt h t) [
    | yes lt ↦
        let len : (h + s - t) % s ≡ h + s - t = mod-eq_of_lt (omega arith) in
        elim (dec_lt (t + m) s) [
          | yes low ↦
              ap (λ x. (h + s - x) % s) (mod-eq_of_lt low)
              ∙ mod-eq_of_lt {n = h + s - (t + m)} {m = s} (omega arith)
              ∙ omega arith
          | no high ↦
              let wrapped : (t + m) % s ≡ t + m - s =
                mod-eq-sub-mod {n = t + m} {m = s} (omega arith)
                ∙ mod-eq_of_lt {n = t + m - s} {m = s} (omega arith) in
              ap (λ x. (h + s - x) % s) wrapped
              ∙ mod-eq-sub-mod {n = h + s - (t + m - s)} {m = s} (omega arith)
              ∙ mod-eq_of_lt {n = h + s - (t + m - s) - s} {m = s} (omega arith)
              ∙ omega arith
        ]
    | no ge ↦
        let len : (h + s - t) % s ≡ h - t =
          mod-eq-sub-mod (omega arith)
          ∙ ap (λ x. x % s) (omega arith)
          ∙ mod-eq_of_lt (omega arith) in
        ap (λ x. (h + s - x) % s) (mod-eq_of_lt {n = t + m} {m = s} (omega arith))
        ∙ mod-eq-sub-mod {n = h + s - (t + m)} {m = s} (omega arith)
        ∙ mod-eq_of_lt {n = h + s - (t + m) - s} {m = s} (omega arith)
        ∙ omega arith
  ]
