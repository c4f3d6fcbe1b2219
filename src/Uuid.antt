-- ===== src/Uuid.antt =====
-- src/ac_misc.c and src/platform/linux/gen_uuid.c: the UUID of `ac_misc_gen_uuid4` on Linux.
--
-- The calls of stdio are arguments, functions of a world `W`; a stream is a number, and `none` is
-- NULL. `fread` gives the bytes that it stored, at most as many as it is asked for.
pub mod Laws
mod Tests
use libac.Prelude.{
  ℕ, Bool, true, false, Option, none, some, List, ◌++◌, ltb, length, drop, set, if◌then◌else◌,
}
use libac.Prelude.Text.{codes}
use libac.Str.{Str}

-- `AC_UUID4_LEN`
abbrev pub uuid4_len : ℕ
uuid4_len = 36

pub record Calls (W : Type 0) : Type 0 where
  pub fopen : Str → W → Option ℕ × W
  pub fread : ℕ → ℕ → W → Str × W
  pub fclose : ℕ → W → W

-- The file that `gen_uuid` reads
abbrev pub uuid_file : Str
uuid_file = codes "/proc/sys/kernel/random/uuid"

module _ {W : Type 0} (calls : Calls W) where
  -- `gen_uuid` with the stream open: whether it returns the buffer, and the buffer
  unfoldable pub read_uuid : ℕ → List ℕ → W → Bool × List ℕ × W
  read_uuid fp buf w =
      let (bytes, w') = calls.fread fp uuid4_len w in
      let buf' = bytes ++ drop (length bytes) buf in
      if ltb (length bytes) uuid4_len
      then (false, buf', calls.fclose fp w')
      else (true, set buf' uuid4_len 0, calls.fclose fp w')

  -- `gen_uuid` on Linux, and `ac_misc_gen_uuid4`, which calls it
  unfoldable pub gen_uuid4 : List ℕ → W → Bool × List ℕ × W
  unfolding read_uuid
  gen_uuid4 dst w =
      let (fp, w') = calls.fopen uuid_file w in
      elim fp [ none ↦ (false, dst, w') | some f ↦ read_uuid f dst w' ]
