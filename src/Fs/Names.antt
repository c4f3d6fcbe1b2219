-- ===== src/Fs/Names.antt =====
-- `ac_fs_is_posix_name`, and what `ac_fs_mkdir_p` does with such a name.
use mathlib.Core.List.{append_assoc, append-nil}
use libac.Prelude.{
  ℕ, ◌<◌, ◌≡◌, sym, ap, ◌∙◌, true, false, some, [], ◌∷◌, ◌++◌, ◌==◌, leb, if_false, length, arith,
}
use libac.Str.{Str}
use libac.Fs.{path_max, Stat, Made, portable, all_portable, is_posix_name, mkdir_p}
use libac.Fs.Mkdir.{prefixes, prefixes_of, ensure_all, mkdir_p-ensure_all}

portable-slash : (c : ℕ) → portable c ≡ true → (c == b'/') ≡ false
unfolding portable
portable-slash c h = ground arith

prefixes-portable : (pre s : Str) → all_portable s ≡ true → prefixes pre s ≡ (pre ++ s) ∷ []
unfolding prefixes all_portable
prefixes-portable pre [] h = ap (λ p. p ∷ []) (sym (append-nil pre))
prefixes-portable pre (c ∷ s) h =
    let here : portable c ≡ true = ground arith in
    if_false _ _ (portable-slash c here)
    ∙ prefixes-portable (pre ++ c ∷ []) s (ground arith)
    ∙ ap (λ p. p ∷ []) (append_assoc pre (c ∷ []) s)

prefixes_of-posix : (s : Str) → is_posix_name (some s) ≡ true → prefixes_of s ≡ s ∷ []
unfolding is_posix_name prefixes_of all_portable
prefixes_of-posix [] h = cc
prefixes_of-posix (c ∷ s) h =
    let all : all_portable (c ∷ s) ≡ true = ground arith in
    let here : portable c ≡ true = ground arith in
    if_false _ _ (portable-slash c here) ∙ prefixes-portable [] (c ∷ s) all

-- Of a name of fewer than 4096 bytes that `ac_fs_is_posix_name` accepts, `ac_fs_mkdir_p` asks for the
-- name itself and nothing else.
pub mkdir_p-is_posix_name :
    {W : Type 0} (fstatat : Str → W → Stat) (mkdirat : Str → W → Made × W) (name : Str) (w : W)
    → is_posix_name (some name) ≡ true
    → length name < path_max
    → mkdir_p fstatat mkdirat name w ≡ some (ensure_all fstatat mkdirat (name ∷ []) w)
mkdir_p-is_posix_name fstatat mkdirat name w posix short =
    let long : leb path_max (length name) ≡ false = ground arith in
    mkdir_p-ensure_all fstatat mkdirat name w
    ∙ ap some (
        if_false _ _ long
        ∙ ap (λ ps. ensure_all fstatat mkdirat ps w) (prefixes_of-posix name posix))
