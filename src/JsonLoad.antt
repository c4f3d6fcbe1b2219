-- ===== src/JsonLoad.antt =====
-- src/ac_json.c: the text of a file, for a parser of JSON.
--
-- The system calls are arguments, functions of a world `W`; a descriptor is a number, and `none` is
-- -1. `open_memstream` and the writes to it are taken not to fail. The outer `none` is fuel that is
-- spent.
pub mod Laws
mod Tests
use libac.Prelude.{ℕ, zero, suc, Option, none, some, [], ◌∷◌, ◌++◌, ◌==◌, if◌then◌else◌}
use libac.Prelude.Int.{ℤ}
use libac.Str.{Str}

-- What `fprintf(out, "%s", buf)` writes: the bytes before the first NUL.
unfoldable pub printed : Str → Str
printed [] = []
printed (c ∷ s) = let rest = printed s in if c == 0 then [] else c ∷ rest

-- The calls that the two functions make; `read` asks for at most 4096 bytes.
pub record Calls (W : Type 0) : Type 0 where
  pub open_file : Str → W → Option ℕ × W
  pub lseek : ℕ → ℤ → W → W
  pub read : ℕ → W → Option Str × W
  pub close : ℕ → W → W

module _ {W : Type 0} (calls : Calls W) where
  -- The loop of `ac_json_load_from_fd`; `out` is what the stream holds.
  unfoldable pub load_loop : ℕ → ℕ → Str → W → Option (Str × W)
  unfolding printed
  load_loop zero fd out w = none
  load_loop (suc f) fd out w =
      let (buf, w') = calls.read fd w in
      elim buf [
        | none ↦ some (out, w')
        | some s ↦ elim s [
          | [] ↦ some (out, w')
          | c ∷ t ↦ load_loop f fd (out ++ printed (c ∷ t)) w'
        ]
      ]

  -- `ac_json_load_from_fd`
  unfoldable pub load_from_fd : ℕ → ℕ → ℤ → W → Option (Str × W)
  unfolding load_loop
  load_from_fd fuel fd offset w = load_loop fuel fd [] (calls.lseek fd offset w)

  -- `ac_json_load_from_file`; the inner `none` is NULL.
  unfoldable pub load_from_file : ℕ → Str → ℤ → W → Option (Option Str × W)
  unfolding load_from_fd
  load_from_file fuel file offset w =
      let (fd, w') = calls.open_file file w in
      elim fd [
        | none ↦ some (none, w')
        | some n ↦ elim (load_from_fd fuel n offset w') [
          | none ↦ none
          | some (ptr, w'') ↦ some (some ptr, calls.close n w'')
        ]
      ]
