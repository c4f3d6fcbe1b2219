-- ===== src/Fs/Tests.antt =====
-- Runs on a file system that is the list of its directories, and on descriptors that are a list.
use libac.Prelude.{
  ℕ, suc, ◌+◌, ◌<◌, ◌≡◌, ◌≢◌, ◌⊎◌, refl, sym, ap, ◌∙◌, Bool, true, false, Option, none, some, List,
  [], ◌∷◌, ◌==◌, leb, ◌||◌, if◌then◌else◌, arith,
}
use libac.Prelude.Int.{pos}
use libac.Prelude.Text.{codes}
use libac.Str.{Str, same_str}
use libac.Quark.Names.{same_str_refl}
use libac.Fs.{
  path_max, Stat, is_dir, no_stat, Made, made, exists, refused, Ret, done, name_too_long, mkdir_p,
  allocated, Calls, fs_copy,
}
use libac.Fs.Mkdir.{prefixes_of, ensure_all, mkdir_p-ensure_all}
use libac.Fs.Dirs.{IsFiles, AllDirs, Missing, Keeps, mkdir_p-Ends}
use libac.Prelude.Erase.{erase}
use libac.Fs.Copy.{IsHeld, fs_copy-held}

abbrev Dirs : Type 0
Dirs = List Str

abbrev stored : Str → Dirs → Bool
stored p [] = false
stored p (q ∷ w) = same_str p q || stored p w

abbrev stat : Str → Dirs → Stat
stat p w = if stored p w then is_dir else no_stat

abbrev make : Str → Dirs → Made × Dirs
make p w = (made, p ∷ w)

dirs-IsFiles : IsFiles stat make
dirs-IsFiles = record {
  made_dir = λ p w w' run.
      ap (λ (r : Made × Dirs). stat p (r.1)) (sym run) ∙ ground (arith, same_str_refl p);
  kept_dirs =
      λ p q w w' m run there. ap (λ (r : Made × Dirs). stat q (r.1)) (sym run) ∙ ground arith;
  refused_same = λ p w w' run. absurd (made_refused (ap (λ (r : Made × Dirs). r.0) run));
  not_there = λ p w w' m absent run e. made_exists (ap (λ (r : Made × Dirs). r.0) run ∙ e);
}
  where
    made_refused : made ≢ refused
    made_refused e = cc

    made_exists : made ≢ exists
    made_exists e = cc

mkdir_p-ensure_all_example :
    mkdir_p stat make (codes "/a/b") (codes "/a" ∷ [])
    ≡ some (
        if leb path_max 4
        then (name_too_long, codes "/a" ∷ [])
        else ensure_all stat make (prefixes_of (codes "/a/b")) (codes "/a" ∷ []))
mkdir_p-ensure_all_example = mkdir_p-ensure_all stat make (codes "/a/b") (codes "/a" ∷ [])

mkdir_p-Ends_example :
    (r : Ret) × (w' : Dirs) × (mkdir_p stat make (codes "a/b") [] ≡ some (r, w'))
    × (((r ≡ done) × AllDirs stat make (prefixes_of (codes "a/b")) w' × Keeps stat make [] w')
        ⊎ ((r ≢ done) × Missing stat make (prefixes_of (codes "a/b")) w'))
mkdir_p-Ends_example = mkdir_p-Ends stat make (codes "a/b") [] dirs-IsFiles (omega arith)

-- Descriptors above all that are open
abbrev sum : List ℕ → ℕ
sum [] = 0
sum (n ∷ ns) = n + sum ns

erase-fresh : (n : ℕ) (ns : List ℕ) → sum ns < n → erase n ns ≡ ns
erase-fresh n [] h = refl
erase-fresh n (m ∷ ns) h =
    let other : (n == m) ≡ false = ground arith in
    rw other (ap (λ l. m ∷ l) (erase-fresh n ns (omega arith)))

abbrev kernel : Calls (List ℕ)
kernel = record {
  open_file = λ path mode w. (some (suc (sum w)), suc (sum w) ∷ w);
  close = λ fd w. erase fd w;
  size = λ fd w. 10;
  fallocate = λ fd n w. (allocated, w);
  ftruncate = λ fd n w. (true, w);
  file_copy = λ a b w. (pos 10, w);
}

fresh_fd :
    (w w' : List ℕ) (fd : ℕ)
    → ◌≡◌ {A = Option ℕ × List ℕ} (some (suc (sum w)), suc (sum w) ∷ w) (some fd, w')
    → (w' ≡ fd ∷ w) × (erase fd w ≡ w)
fresh_fd w w' fd run =
    let first : ◌≡◌ {A = Option ℕ} (some (suc (sum w))) (some fd) =
      ap (λ (r : Option ℕ × List ℕ). r.0) run in
    let second : suc (sum w) ∷ w ≡ w' = ap (λ (r : Option ℕ × List ℕ). r.1) run in
    let fd_is : suc (sum w) ≡ fd = cc in
    (
      sym second ∙ ap (λ n. n ∷ w) fd_is,
      ap (λ n. erase n w) (sym fd_is) ∙ erase-fresh (suc (sum w)) w (omega arith),
    )

no_failure :
    (w w' : List ℕ)
    → ◌≡◌ {A = Option ℕ × List ℕ} (some (suc (sum w)), suc (sum w) ∷ w) (none, w')
    → w' ≡ w
no_failure w w' run =
    let first : ◌≡◌ {A = Option ℕ} (some (suc (sum w))) none =
      ap (λ (r : Option ℕ × List ℕ). r.0) run in
    cc

kernel-IsHeld : IsHeld kernel (λ w. w)
kernel-IsHeld = record {
  opened = λ path mode w w' fd run. fresh_fd w w' fd run;
  not_opened = λ path mode w w' run. no_failure w w' run;
  closed = λ fd w. refl;
  fallocate_same = λ fd n w. refl;
  ftruncate_same = λ fd n w. refl;
  file_copy_same = λ a b w. refl;
}

fs_copy-held_example : (fs_copy kernel (codes "a") (codes "b") 1 (3 ∷ [])).1 ≡ 3 ∷ []
fs_copy-held_example = fs_copy-held kernel (λ w. w) (codes "a") (codes "b") 1 (3 ∷ []) kernel-IsHeld
