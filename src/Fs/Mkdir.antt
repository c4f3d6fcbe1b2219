-- ===== src/Fs/Mkdir.antt =====
-- `ac_fs_mkdir_p`: the directories that it asks for, and what is there at the end.
use mathlib.Core.List.{append_assoc, append-nil}
use libac.Prelude.{
  ℕ, zero, suc, ◌+◌, ◌<◌, ◌≤◌, ◌≡◌, ◌⊎◌, refl, sym, ap, ◌∙◌, true, Bool-cases, inl, inr, Option,
  none, some, List, [], ◌∷◌, ◌++◌, leb, ◌==◌, if◌then◌else◌, if_true, if_false, length,
  length-append, arith,
}
use libac.Prelude.Text.{codes}
use libac.Str.{Str}
use libac.Fs.{
  path_max, Stat, Made, Ret, done, name_too_long, strsep, strcat, component, components, from_root,
  mkdir_p,
}

-- The parts of a path up to each slash and up to its end, behind a part that comes before them
unfoldable pub prefixes : Str → Str → List Str
prefixes pre [] = pre ∷ []
prefixes pre (c ∷ s) =
    let rest = prefixes (pre ++ c ∷ []) s in if c == b'/' then pre ∷ rest else rest

-- Those of a whole path: not the empty part before a leading slash
unfoldable pub prefixes_of : Str → List Str
prefixes_of [] = prefixes [] []
prefixes_of (c ∷ s) = if c == b'/' then prefixes (codes "/") s else prefixes [] (c ∷ s)

-- One step of `strsep` and the parts of the string
abbrev Separates : Str → Str × Option Str → Type 0
Separates s run =
    ((run ≡ (s, none)) × ((pre : Str) → prefixes pre s ≡ (pre ++ s) ∷ []))
    ⊎ ((token : Str) × (rest : Str) × (run ≡ (token, some rest))
        × (length s ≡ length token + 1 + length rest)
        × ((pre : Str)
            → prefixes pre s ≡ (pre ++ token) ∷ prefixes ((pre ++ token) ++ codes "/") rest))

strsep-Separates : (s : Str) → Separates s (strsep s)
unfolding strsep prefixes
strsep-Separates [] = inl (refl, λ pre. ap (λ p. p ∷ []) (sym (append-nil pre)))
strsep-Separates (c ∷ s) = elim (Bool-cases (c == b'/')) [
  | inl slash ↦ inr (
    [],
    s,
    if_true _ _ slash,
    omega arith,
    λ pre.
        let is : c ≡ b'/' = ground arith in
        let same : pre ≡ pre ++ [] = sym (append-nil pre) in
        if_true _ _ slash ∙ (λ i. same i ∷ prefixes (same i ++ is i ∷ []) s),
  )
  | inr other ↦ elim (strsep-Separates s) [
    | inl (run, parts) ↦ inl (
      if_false _ _ other ∙ ap (λ r. (c ∷ r.0, r.1)) run,
      λ pre.
          if_false _ _ other
          ∙ parts (pre ++ c ∷ [])
          ∙ ap (λ p. p ∷ []) (append_assoc pre (c ∷ []) s),
    )
    | inr (token, rest, run, len, parts) ↦ inr (
      c ∷ token,
      rest,
      if_false _ _ other ∙ ap (λ r. (c ∷ r.0, r.1)) run,
      omega (arith, len),
      λ pre.
          if_false _ _ other
          ∙ parts (pre ++ c ∷ [])
          ∙ ap (λ p. p ∷ prefixes (p ++ codes "/") rest) (append_assoc pre (c ∷ []) token),
    )
  ]
]

strcat_fits : (m s : Str) → length m + length s ≤ path_max → strcat m s ≡ some (m ++ s)
unfolding strcat
strcat_fits m s fits =
    let short : leb (length m + length s + 1) (path_max + 1) ≡ true = ground arith in rw short refl

module _ {W : Type 0} (fstatat : Str → W → Stat) (mkdirat : Str → W → Made × W) where
  -- The components one after the other, until one fails
  unfoldable pub ensure_all : List Str → W → Ret × W
  ensure_all [] w = (done, w)
  ensure_all (p ∷ ps) w =
      let (r, w') = component fstatat mkdirat p w in
      elim r [ some ret ↦ (ret, w') | none ↦ ensure_all ps w' ]

  -- The rest of the loop behind a component
  abbrev after : ℕ → Option Str → Str → Option Ret × W → Option (Ret × W)
  after f rest m (some ret, w) = some (ret, w)
  after f rest m (none, w) = components fstatat mkdirat f rest (m ++ codes "/") w

  abbrev ensured : List Str → Option Ret × W → Ret × W
  ensured ps (some ret, w) = (ret, w)
  ensured ps (none, w) = ensure_all ps w

  ensure_all-ensured :
      (p : Str) (ps : List Str) (w : W)
      → ensure_all (p ∷ ps) w ≡ ensured ps (component fstatat mkdirat p w)
  unfolding ensure_all
  ensure_all-ensured p ps w = by_result (component fstatat mkdirat p w)
    where
      by_result :
          (x : Option Ret × W)
          → ◌≡◌ {A = Ret × W}
              (elim (x.0) [ some ret ↦ (ret, x.1) | none ↦ ensure_all ps (x.1) ])
              (ensured ps x)
      by_result (some ret, w) = refl
      by_result (none, w) = refl

  -- A round of the loop behind its `strsep`
  abbrev step : ℕ → Str → W → Str × Option Str → Option (Ret × W)
  step f mdir w (token, rest) = elim (strcat mdir token) [
    | none ↦ none
    | some m ↦
        let (r, w') = component fstatat mkdirat m w in
        elim r [
          | some ret ↦ some (ret, w')
          | none ↦ elim (strcat m (codes "/")) [
            | none ↦ none
            | some m' ↦ components fstatat mkdirat f rest m' w'
          ]
        ]
  ]

  components-after :
      (f : ℕ) (dir mdir token : Str) (rest : Option Str) (w : W)
      → strsep dir ≡ (token, rest)
      → length mdir + length token + 1 ≤ path_max
      → components fstatat mkdirat (suc f) (some dir) mdir w
        ≡ after f rest (mdir ++ token) (component fstatat mkdirat (mdir ++ token) w)
  unfolding components
  components-after f dir mdir token rest w sep fits =
      ap (step f mdir w) sep
      ∙ rw (step, strcat_fits mdir token (omega arith))
          (by_result (component fstatat mkdirat (mdir ++ token) w))
    where
      by_result :
          (x : Option Ret × W)
          → ◌≡◌ {A = Option (Ret × W)}
              (elim (x.0) [
                | some ret ↦ some (ret, x.1)
                | none ↦ elim (strcat (mdir ++ token) (codes "/")) [
                  | none ↦ none
                  | some m' ↦ components fstatat mkdirat f rest m' (x.1)
                ]
              ])
              (after f rest (mdir ++ token) x)
      by_result (some ret, w) = refl
      by_result (none, w) =
          rw (strcat_fits (mdir ++ token) (codes "/") (omega (arith, length-append mdir token)))
            refl

  components-ensure_all :
      (f : ℕ) (dir mdir : Str) (w : W)
      → length dir + 1 < f
      → length mdir + length dir + 1 ≤ path_max
      → components fstatat mkdirat f (some dir) mdir w ≡ some (ensure_all (prefixes mdir dir) w)
  components-ensure_all zero dir mdir w enough fits = absurd (omega arith)
  components-ensure_all (suc f) dir mdir w enough fits = elim (strsep-Separates dir) [
    | inl (run, parts) ↦
        components-after f dir mdir dir none w run fits
        ∙ last_part f dir mdir w (component fstatat mkdirat (mdir ++ dir) w) (omega arith)
        ∙ ap some
            (sym (ap (λ ps. ensure_all ps w) (parts mdir) ∙ ensure_all-ensured (mdir ++ dir) [] w))
    | inr (token, rest, run, len, parts) ↦
        let m = mdir ++ token in
        components-after f dir mdir token (some rest) w run (omega arith)
        ∙ more_parts f rest m (component fstatat mkdirat m w) (λ w'.
          components-ensure_all f rest (m ++ codes "/") w' (omega arith)
            (omega (arith, length-append m (codes "/"), length-append mdir token)))
        ∙ ap some (
            sym (
              ap (λ ps. ensure_all ps w) (parts mdir)
              ∙ ensure_all-ensured m (prefixes (m ++ codes "/") rest) w))
  ]
    where
      more_parts :
          (f : ℕ) (rest m : Str) (x : Option Ret × W)
          → ((w' : W)
              → components fstatat mkdirat f (some rest) (m ++ codes "/") w'
                ≡ some (ensure_all (prefixes (m ++ codes "/") rest) w'))
          → after f (some rest) m x ≡ some (ensured (prefixes (m ++ codes "/") rest) x)
      more_parts f rest m (some ret, w') ih = refl
      more_parts f rest m (none, w') ih = ih w'

      last_part :
          (f : ℕ) (dir mdir : Str) (w : W) (x : Option Ret × W)
          → 0 < f
          → after f none (mdir ++ dir) x ≡ some (ensured [] x)
      last_part f dir mdir w (some ret, w') left = refl
      last_part zero dir mdir w (none, w') left = absurd (omega arith)
      last_part (suc f) dir mdir w (none, w') left = unfold components ensure_all in refl

  -- `ac_fs_mkdir_p` of a path of fewer than 4096 bytes asks for the parts of the path up to each slash and
  -- up to its end, one after the other until one fails, and for nothing else; it never writes outside its
  -- buffer. A longer path it refuses without a call.
  pub mkdir_p-ensure_all :
      (path : Str) (w : W)
      → mkdir_p fstatat mkdirat path w
        ≡ some (
            if leb path_max (length path)
            then (name_too_long, w)
            else ensure_all (prefixes_of path) w)
  unfolding mkdir_p from_root prefixes_of
  mkdir_p-ensure_all path w = elim (Bool-cases (leb path_max (length path))) [
    | inl long ↦ rw long refl
    | inr short ↦
        if_false _ _ short ∙ whole path (ground (arith, short)) ∙ ap some (sym (if_false _ _ short))
  ]
    where
      whole :
          (path : Str)
          → length path < path_max
          → from_root fstatat mkdirat path w ≡ some (ensure_all (prefixes_of path) w)
      whole [] h = components-ensure_all 2 [] [] w (omega arith) (omega arith)
      whole (c ∷ s) h = elim (Bool-cases (c == b'/')) [
        | inl slash ↦
            if_true _ _ slash
            ∙ components-ensure_all (length s + 3) s (codes "/") w (omega arith) (omega arith)
            ∙ ap (λ ps. some (ensure_all ps w)) (sym (if_true _ _ slash))
        | inr other ↦
            if_false _ _ other
            ∙ components-ensure_all (length s + 3) (c ∷ s) [] w (omega arith) (omega arith)
            ∙ ap (λ ps. some (ensure_all ps w)) (sym (if_false _ _ other))
      ]
