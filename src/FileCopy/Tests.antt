-- ===== src/FileCopy/Tests.antt =====
-- Runs with calls that move one byte at a time.
use mathlib.Core.Path.{transport}
use mathlib.Core.List.{append-nil}
use libac.Prelude.{
  ℕ, ◌≤◌, ◌≡◌, ◌⊎◌, refl, sym, ap, Option, none, some, [], ◌∷◌, ◌++◌, take, drop, length, arith,
}
use libac.Prelude.Int.{ℤ, pos, negsuc}
use libac.Prelude.Text.{codes}
use libac.Str.{Str}
use libac.FileCopy.{linux_copy, freebsd_copy}
use libac.FileCopy.Freebsd.{IsReadWrite, Fails, Short, freebsd_copy-Copies}
use libac.FileCopy.Laws.{IsSendfile, Fails as LinuxFails, linux_copy-Copies}

-- What is unread, and what is written
abbrev Files : Type 0
Files = Str × Str

abbrev one_byte : Files → Option ℕ × Files
one_byte ([], out) = (some 0, ([], out))
one_byte (c ∷ s, out) = (some 1, (s, out ++ c ∷ []))

abbrev Moved : Files → ℕ → Files → Type 0
Moved w n w' = (n ≤ length (w.0)) × (w'.0 ≡ drop n (w.0)) × (w'.1 ≡ w.1 ++ take n (w.0))

result_number : (k n : ℕ) → ◌≡◌ {A = Option ℕ} (some k) (some n) → k ≡ n
result_number k n e = cc

result_is :
    (w w' v : Files) (n k : ℕ)
    → Moved w k v
    → ◌≡◌ {A = Option ℕ × Files} (some k, v) (some n, w')
    → Moved w n w'
result_is w w' v n k m run =
    let number = result_number k n (ap (λ (r : Option ℕ × Files). r.0) run) in
    let world : v ≡ w' = ap (λ (r : Option ℕ × Files). r.1) run in
    transport (λ i. Moved w (number i) (world i)) m

one_byte-Moved : (w w' : Files) (n : ℕ) → one_byte w ≡ (some n, w') → Moved w n w'
one_byte-Moved ([], out) w' n run =
    result_is ([], out) w' ([], out) n 0 (omega arith, refl, sym (append-nil out)) run
one_byte-Moved (c ∷ s, out) w' n run =
    result_is (c ∷ s, out) w' (s, out ++ c ∷ []) n 1 (omega arith, refl, refl) run

one_byte-at_end : (w w' : Files) → one_byte w ≡ (some 0, w') → w.0 ≡ []
one_byte-at_end ([], out) w' run = refl
one_byte-at_end (c ∷ s, out) w' run =
    let number = result_number 1 0 (ap (λ (r : Option ℕ × Files). r.0) run) in absurd (omega arith)

one_byte-IsSendfile : IsSendfile one_byte (λ w. w.0) (λ w. w.1)
one_byte-IsSendfile = record { moved = one_byte-Moved; at_end = one_byte-at_end }

linux_copy-Copies_example :
    (r : ℤ) × (w' : Files) × (linux_copy one_byte 4 (codes "abc", []) ≡ some (r, w'))
    × (((r ≡ negsuc 0) × LinuxFails one_byte (λ w. w.0) (λ w. w.1) (codes "abc", []) w')
        ⊎ ((r ≡ pos 3) × (w'.1 ≡ codes "abc") × (w'.0 ≡ [])))
linux_copy-Copies_example =
    linux_copy-Copies one_byte (λ w. w.0) (λ w. w.1) 4 (codes "abc", []) one_byte-IsSendfile
      (omega arith)

-- Reads and writes of one byte
abbrev read : Files → Option Str × Files
read ([], out) = (some [], ([], out))
read (c ∷ s, out) = (some (c ∷ []), (s, out))

abbrev write : Str → Files → Option ℕ × Files
write [] w = (some 0, w)
write (c ∷ s) w = (some 1, (w.0, w.1 ++ c ∷ []))

abbrev text_or : Option Str → Str
text_or none = []
text_or (some s) = s

abbrev Got : Files → Option Str × Files → Type 0
Got w x = (w.0 ≡ text_or (x.0) ++ x.1.0) × (x.1.1 ≡ w.1)

read-Got : (w : Files) → Got w (read w)
read-Got ([], out) = (refl, refl)
read-Got (c ∷ s, out) = (refl, refl)

read-at_end : (w w' : Files) → read w ≡ (some [], w') → w.0 ≡ []
read-at_end ([], out) w' run = refl
read-at_end (c ∷ s, out) w' run =
    absurd (omega (arith, ap (λ (r : Option Str × Files). length (text_or (r.0))) run))

abbrev number_or : Option ℕ → ℕ
number_or none = 0
number_or (some n) = n

abbrev Put : Str → Files → Option ℕ × Files → Type 0
Put s w x = (number_or (x.0) ≤ length s) × (x.1.1 ≡ w.1 ++ take (number_or (x.0)) s) × (x.1.0 ≡ w.0)

write-Put : (s : Str) (w : Files) → Put s w (write s w)
write-Put [] w = (omega arith, sym (append-nil (w.1)), refl)
write-Put (c ∷ s) w = (omega arith, refl, refl)

bytes-IsReadWrite : IsReadWrite read write (λ w. w.0) (λ w. w.1)
bytes-IsReadWrite = record {
  got = λ w w' s run. transport (λ i. Got w (run i)) (read-Got w);
  at_end = read-at_end;
  put = λ s w w' n run. transport (λ i. Put s w (run i)) (write-Put s w);
}

freebsd_copy-Copies_example :
    (r : ℤ) × (w' : Files) × (freebsd_copy read write 4 (codes "abc", []) ≡ some (r, w'))
    × (((r ≡ negsuc 0) × Fails read write (λ w. w.0) (λ w. w.1) (codes "abc", []) w')
        ⊎ ((t : Str) × (r ≡ pos (length t))
            × (w'.1 ≡ t)
            × ((t ≡ codes "abc") ⊎ Short read write (λ w. w.0) (λ w. w.1) (codes "abc", []))))
freebsd_copy-Copies_example =
    freebsd_copy-Copies read write (λ w. w.0) (λ w. w.1) 4 (codes "abc", []) bytes-IsReadWrite
      (omega arith)
