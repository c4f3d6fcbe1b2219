-- ===== src/FileCopy.antt =====
-- src/platform/linux/file_copy.c and src/platform/freebsd/file_copy.c: the contents of one open file to
-- another.
--
-- The system calls are arguments, functions of a world `W`; `none` is -1. What `sync_file_range` and
-- `posix_fadvise` tell the kernel changes no contents and is left out, with the count of windows. The
-- outer `none` is fuel that is spent.
pub mod Laws
pub mod Freebsd
mod Tests
use libac.Prelude.{ℕ, zero, suc, ◌+◌, Option, none, some, [], ◌∷◌, ◌==◌, if◌then◌else◌}
use libac.Prelude.Int.{ℤ, pos, negsuc}
use libac.Str.{Str}

module _ {W : Type 0} (sendfile : W → Option ℕ × W) where
  -- The loop of `file_copy` on Linux
  unfoldable pub send_all : ℕ → ℕ → W → Option (ℤ × W)
  send_all zero total w = none
  send_all (suc f) total w =
      let (bytes_wrote, w') = sendfile w in
      elim bytes_wrote [
        | none ↦ some (negsuc 0, w')
        | some n ↦
            let rest = send_all f (total + n) w' in
            if n == 0 then some (pos (total + n), w') else rest
      ]

  -- `file_copy` on Linux
  unfoldable pub linux_copy : ℕ → W → Option (ℤ × W)
  unfolding send_all
  linux_copy fuel w = send_all fuel 0 w

module _ {W : Type 0} (read : W → Option Str × W) (write : Str → W → Option ℕ × W) where
  -- The loop of `file_copy` on FreeBSD; `read` asks for at most `BUF_SIZE` bytes.
  unfoldable pub write_all : ℕ → ℕ → W → Option (ℤ × W)
  write_all zero total w = none
  write_all (suc f) total w =
      let (buf, w') = read w in
      elim buf [
        | none ↦ some (negsuc 0, w')
        | some s ↦ elim s [
          | [] ↦ some (pos total, w')
          | c ∷ t ↦
              let (bytes_wrote, w'') = write (c ∷ t) w' in
              elim bytes_wrote [
                | none ↦ some (negsuc 0, w'')
                | some n ↦
                    let rest = write_all f (total + n) w'' in
                    if n == 0 then some (pos (total + n), w'') else rest
              ]
        ]
      ]

  -- `file_copy` on FreeBSD
  unfoldable pub freebsd_copy : ℕ → W → Option (ℤ × W)
  unfolding write_all
  freebsd_copy fuel w = write_all fuel 0 w
