-- ===== src/Fs/Dirs.antt =====
-- `ac_fs_mkdir_p` on a file system that nobody else changes.
use mathlib.Core.Path.{transport}
use libac.Prelude.{
  ◌<◌, ◌≡◌, ◌≢◌, ◌⊎◌, refl, sym, ap, ◌∙◌, false, inl, inr, Option, none, some, List, [], ◌∷◌, leb,
  if_false, length, arith,
}
use libac.Str.{Str}
use libac.Fs.{
  path_max, Stat, is_dir, is_other, no_stat, Made, made, exists, refused, Ret, done, not_dir,
  no_mkdir, component, mkdir_p,
}
use libac.Fs.Mkdir.{prefixes_of, ensure_all, mkdir_p-ensure_all}

module _ {W : Type 0} (fstatat : Str → W → Stat) (mkdirat : Str → W → Made × W) where
  -- `mkdirat` makes the directory or changes nothing, leaves the directories that are there, and does
  -- not say `EEXIST` of what `fstatat` has just not found (as it does of a dangling symbolic link).
  pub record IsFiles : Type 0 where
    pub made_dir : (p : Str) (w w' : W) → mkdirat p w ≡ (made, w') → fstatat p w' ≡ is_dir
    pub kept_dirs :
        (p q : Str) (w w' : W) (m : Made)
        → mkdirat p w ≡ (m, w')
        → fstatat q w ≡ is_dir
        → fstatat q w' ≡ is_dir
    pub refused_same : (p : Str) (w w' : W) → mkdirat p w ≡ (refused, w') → w' ≡ w
    pub not_there :
        (p : Str) (w w' : W) (m : Made) → fstatat p w ≡ no_stat → mkdirat p w ≡ (m, w') → m ≢ exists

  abbrev pub Keeps : W → W → Type 0
  Keeps w w' = (q : Str) → fstatat q w ≡ is_dir → fstatat q w' ≡ is_dir

  abbrev pub AllDirs : List Str → W → Type 0
  AllDirs [] w = Unit
  AllDirs (p ∷ ps) w = (fstatat p w ≡ is_dir) × AllDirs ps w

  -- One of the paths is not a directory.
  abbrev pub Missing : List Str → W → Type 0
  Missing [] w = ⊥
  Missing (p ∷ ps) w = (fstatat p w ≢ is_dir) ⊎ Missing ps w

  abbrev Ensures : Str → W → Option Ret × W → Type 0
  Ensures p w run =
      ((w' : W) × (run ≡ (none, w')) × (fstatat p w' ≡ is_dir) × Keeps w w')
      ⊎ ((ret : Ret) × (w' : W) × (run ≡ (some ret, w')) × (ret ≢ done) × (fstatat p w' ≢ is_dir))

  component-Ensures : (p : Str) (w : W) → IsFiles → Ensures p w (component fstatat mkdirat p w)
  unfolding component
  component-Ensures p w files = by_stat (fstatat p w) refl
    where
      by_made :
          (x : Made × W)
          → fstatat p w ≡ no_stat
          → mkdirat p w ≡ x
          → Ensures p w (elim (x.0) [ made ↦ none | exists ↦ none | refused ↦ some no_mkdir ], x.1)
      by_made (made, w') absent run =
          inl (w', refl, files.made_dir p w w' run, λ q. files.kept_dirs p q w w' made run)
      by_made (exists, w') absent run = absurd (files.not_there p w w' exists absent run refl)
      by_made (refused, w') absent run = inr (
        no_mkdir,
        w',
        refl,
        (λ e. cc),
        λ e.
            let same : fstatat p w' ≡ fstatat p w =
              ap (fstatat p) (files.refused_same p w w' run) in
            cc,
      )

      by_stat :
          (t : Stat)
          → fstatat p w ≡ t
          → Ensures p w (elim t [
            | is_dir ↦ (none, w)
            | is_other ↦ (some not_dir, w)
            | no_stat ↦
                let (err, w') = mkdirat p w in
                (elim err [ made ↦ none | exists ↦ none | refused ↦ some no_mkdir ], w')
          ])
      by_stat is_dir there = inl (w, refl, there, λ q e. e)
      by_stat is_other there = inr (not_dir, w, refl, (λ e. cc), λ e. cc)
      by_stat no_stat absent = by_made (mkdirat p w) absent refl

  -- How it ends: with 0 and all directories there, or with -1 and one of them not there
  abbrev pub Ends : List Str → W → Ret × W → Type 0
  Ends ps w (r, w') = ((r ≡ done) × AllDirs ps w' × Keeps w w') ⊎ ((r ≢ done) × Missing ps w')

  ensure_all-Ends : (ps : List Str) (w : W) → IsFiles → Ends ps w (ensure_all fstatat mkdirat ps w)
  unfolding ensure_all
  ensure_all-Ends [] w files = inl (refl, tt, λ q e. e)
  ensure_all-Ends (p ∷ ps) w files = elim (component-Ensures p w files) [
    | inl (w', run, there, keeps) ↦
        transport
          (λ i. Ends (p ∷ ps) w (elim ((sym run i).0) [
            | some ret ↦ (ret, (sym run i).1)
            | none ↦ ensure_all fstatat mkdirat ps ((sym run i).1)
          ]))
          (go_on w' there keeps (ensure_all fstatat mkdirat ps w') (ensure_all-Ends ps w' files))
    | inr (ret, w', run, failed, missing) ↦
        transport
          (λ i. Ends (p ∷ ps) w (elim ((sym run i).0) [
            | some ret ↦ (ret, (sym run i).1)
            | none ↦ ensure_all fstatat mkdirat ps ((sym run i).1)
          ]))
          (inr (failed, inl missing))
  ]
    where
      go_on :
          (w' : W)
          → fstatat p w' ≡ is_dir
          → Keeps w w'
          → (x : Ret × W) → Ends ps w' x
          → Ends (p ∷ ps) w x
      go_on w' there keeps (r, w'') (inl (zero, dirs, keeps')) =
          inl (zero, (keeps' p there, dirs), λ q e. keeps' q (keeps q e))
      go_on w' there keeps (r, w'') (inr (failed, missing)) = inr (failed, inr missing)

  -- `ac_fs_mkdir_p` of a path of fewer than 4096 bytes, on files that nobody else changes and with no
  -- dangling link on the way, returns 0 when the path and all its parts are directories then, and no
  -- directory has gone; it returns -1 when one of them is not a directory then.
  pub mkdir_p-Ends :
      (path : Str) (w : W)
      → IsFiles
      → length path < path_max
      → (r : Ret) × (w' : W) × (mkdir_p fstatat mkdirat path w ≡ some (r, w'))
        × (((r ≡ done) × AllDirs (prefixes_of path) w' × Keeps w w')
            ⊎ ((r ≢ done) × Missing (prefixes_of path) w'))
  mkdir_p-Ends path w files short =
      let long : leb path_max (length path) ≡ false = ground arith in
      let run = ensure_all fstatat mkdirat (prefixes_of path) w in
      (
        run.0,
        run.1,
        mkdir_p-ensure_all fstatat mkdirat path w ∙ ap some (if_false _ _ long),
        ensure_all-Ends (prefixes_of path) w files,
      )
