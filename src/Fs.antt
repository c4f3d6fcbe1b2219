-- ===== src/Fs.antt =====
-- src/ac_fs.c: names, directories and copies of files.
--
-- The system calls are arguments, functions of a world `W`. `none` is a write outside `mdir`, or fuel
-- that is spent. A result of -1 is told apart by what `errno` holds.
pub mod Mkdir
pub mod Dirs
pub mod Names
pub mod Copy
mod Tests
use libac.Prelude.{
  ℕ, zero, suc, ◌+◌, ◌≡◌, Bool, true, false, ◌||◌, ◌&&◌, Option, none, some, List, [], ◌∷◌, ◌++◌,
  ltb, leb, ◌==◌, if◌then◌else◌, length,
}
use libac.Prelude.Int.{ℤ, negsuc}
use libac.Prelude.Text.{codes}
use libac.Str.{Str, same_str}

-- The characters of the `case` labels of `ac_fs_is_posix_name`
unfoldable pub portable : ℕ → Bool
portable c =
    (leb b'A' c && leb c b'Z')
    || (leb b'a' c && leb c b'z')
    || (leb b'0' c && leb c b'9')
    || (c == b'.')
    || (c == b'_')
    || (c == b'-')

unfoldable pub all_portable : Str → Bool
unfolding portable
all_portable [] = true
all_portable (c ∷ name) = portable c && all_portable name

-- `ac_fs_is_posix_name`
unfoldable pub is_posix_name : Option Str → Bool
unfolding all_portable same_str
is_posix_name none = false
is_posix_name (some []) = false
is_posix_name (some (c ∷ name)) =
    if c == b'-'
    then false
    else if same_str (c ∷ name) (codes ".") || same_str (c ∷ name) (codes "..")
    then false
    else all_portable (c ∷ name)

-- `PATH_MAX` of Linux
abbrev pub path_max : ℕ
path_max = 4096

-- What `fstatat` tells: a directory, something else, or an error.
pub data Stat : Type 0 where
  is_dir : Stat
  is_other : Stat
  no_stat : Stat

-- What `mkdirat` does: 0, -1 with `EEXIST`, -1 with another error.
pub data Made : Type 0 where
  made : Made
  exists : Made
  refused : Made

-- What `ac_fs_mkdir_p` returns: 0, or -1 with `ENAMETOOLONG`, `ENOTDIR`, or the error of `mkdirat`.
pub data Ret : Type 0 where
  done : Ret
  name_too_long : Ret
  not_dir : Ret
  no_mkdir : Ret

-- `strsep(&dir, "/")`: the token, and what `dir` points to then, `none` for NULL.
unfoldable pub strsep : Str → Str × Option Str
strsep [] = ([], none)
strsep (c ∷ s) =
    let (token, rest) = strsep s in if c == b'/' then ([], some s) else (c ∷ token, rest)

-- `strcat(mdir, s)`
unfoldable pub strcat : Str → Str → Option Str
strcat mdir s = if leb (length mdir + length s + 1) (path_max + 1) then some (mdir ++ s) else none

module _ {W : Type 0} (fstatat : Str → W → Stat) (mkdirat : Str → W → Made × W) where
  -- One component: the result of `ac_fs_mkdir_p` if it is known, and the world.
  unfoldable pub component : Str → W → Option Ret × W
  component mdir w = elim (fstatat mdir w) [
    | is_dir ↦ (none, w)
    | is_other ↦ (some not_dir, w)
    | no_stat ↦
        let (err, w') = mkdirat mdir w in
        (elim err [ made ↦ none | exists ↦ none | refused ↦ some no_mkdir ], w')
  ]

  -- The loop of `ac_fs_mkdir_p`
  unfoldable pub components : ℕ → Option Str → Str → W → Option (Ret × W)
  unfolding component strsep strcat
  components zero dir mdir w = none
  components (suc f) none mdir w = some (done, w)
  components (suc f) (some dir) mdir w =
      let (token, rest) = strsep dir in
      elim (strcat mdir token) [
        | none ↦ none
        | some m ↦
            let (r, w') = component m w in
            elim r [
              | some ret ↦ some (ret, w')
              | none ↦ elim (strcat m (codes "/")) [
                | none ↦ none
                | some m' ↦ components f rest m' w'
              ]
            ]
      ]

  -- `ac_fs_mkdir_p` from `if (*path == '/')` on
  unfoldable pub from_root : Str → W → Option (Ret × W)
  unfolding components strcat
  from_root [] w = components 2 (some []) [] w
  from_root (c ∷ s) w =
      if c == b'/'
      then elim (strcat [] (codes "/")) [
        | none ↦ none
        | some mdir ↦ components (length s + 3) (some s) mdir w
      ]
      else components (length s + 3) (some (c ∷ s)) [] w

  -- `ac_fs_mkdir_p`
  unfoldable pub mkdir_p : Str → W → Option (Ret × W)
  unfolding from_root
  mkdir_p path w = if leb path_max (length path) then some (name_too_long, w) else from_root path w

-- The flags of the two calls of `open`, as far as they differ
pub data Mode : Type 0 where
  read_only : Mode
  create_new : Mode
  overwrite : Mode

-- What `fallocate` does: 0, -1 with `EOPNOTSUPP`, -1 with another error.
pub data Alloc : Type 0 where
  allocated : Alloc
  unsupported : Alloc
  no_space : Alloc

-- The system calls of `ac_fs_copy`, and `file_copy` of the platform. A descriptor is a number, and -1
-- is `none`.
pub record Calls (W : Type 0) : Type 0 where
  pub open_file : Str → Mode → W → Option ℕ × W
  pub close : ℕ → W → W
  pub size : ℕ → W → ℕ
  pub fallocate : ℕ → ℕ → W → Alloc × W
  pub ftruncate : ℕ → ℕ → W → Bool × W
  pub file_copy : ℕ → ℕ → W → ℤ × W

-- `fallocate` on FreeBSD
unfoldable pub freebsd_fallocate : {W : Type 0} → ℕ → ℕ → W → Alloc × W
freebsd_fallocate fd len w = (unsupported, w)

-- `AC_FS_COPY_OVERWRITE`, and `flags & ~AC_FS_COPY_OVERWRITE`
abbrev pub unknown_flags : ℕ → Bool
unknown_flags flags = ltb 1 flags

module _ {W : Type 0} (calls : Calls W) where
  -- Whether the destination has room: `fallocate`, or `ftruncate` where it is not supported
  unfoldable pub make_room : ℕ → ℕ → W → Bool × W
  make_room ofd size w =
      let (a, w') = calls.fallocate ofd size w in
      elim a [
        | allocated ↦ (true, w')
        | unsupported ↦ calls.ftruncate ofd size w'
        | no_space ↦ (false, w')
      ]

  -- The copy, if there is room
  unfoldable pub fill : ℕ → ℕ → W → ℤ × W
  unfolding make_room
  fill ifd ofd w =
      let (room, w') = make_room ofd (calls.size ifd w) w in
      elim room [ true ↦ calls.file_copy ifd ofd w' | false ↦ (negsuc 0, w') ]

  -- `ac_fs_copy` with both files open
  unfoldable pub copy_open : ℕ → ℕ → W → ℤ × W
  unfolding fill
  copy_open ifd ofd w =
      let (bytes_wrote, w') = fill ifd ofd w in (bytes_wrote, calls.close ofd (calls.close ifd w'))

  -- `ac_fs_copy` with the source open
  unfoldable pub copy_to : ℕ → Str → ℕ → W → ℤ × W
  unfolding copy_open
  copy_to ifd to flags w =
      let (fd, w') = calls.open_file to (if flags == 1 then overwrite else create_new) w in
      elim fd [ none ↦ (negsuc 0, calls.close ifd w') | some ofd ↦ copy_open ifd ofd w' ]

  -- `ac_fs_copy`
  unfoldable pub fs_copy : Str → Str → ℕ → W → ℤ × W
  unfolding copy_to
  fs_copy from to flags w =
      if unknown_flags flags
      then (negsuc 0, w)
      else (let (fd, w') = calls.open_file from read_only w in
          elim fd [ none ↦ (negsuc 0, w') | some ifd ↦ copy_to ifd to flags w' ])
