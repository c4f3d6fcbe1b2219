-- ===== src/Jsonw/Escape.antt =====
-- `make_escaped_string` and a reader of JSON strings.
use libac.Prelude.{
  ℕ, ◌+◌, ◌-◌, ◌*◌, ◌/◌, ◌%◌, ◌≤◌, ◌<◌, ◌≡◌, refl, sym, ap, ◌∙◌, Bool, true, false, ◌||◌, ◌&&◌,
  Option, none, some, [], ◌∷◌, ◌++◌, leb, ltb, ◌==◌, if◌then◌else◌, length, length-append, arith,
  Bool-cases, inl, inr,
}
use libac.Prelude.Text.{codes}
use libac.Str.{Str}
use libac.Jsonw.{hex_digit, escape_char, make_escaped_string}

-- The states of the reader: in plain text, behind a backslash, and with so many hexadecimal digits
-- to come of a character whose number so far is given.
pub data Mode : Type 0 where
  plain behind : Mode
  digits_left : ℕ → ℕ → Mode

-- A digit's value
digit_value : ℕ → Option ℕ
digit_value c =
    if leb b'0' c && leb c b'9'
    then some (c - b'0')
    else if leb b'a' c && leb c b'f'
    then some (c - b'a' + 10)
    else none

-- The character that an escape of one letter stands for
letter_value : ℕ → Option ℕ
letter_value c =
    if (c == b'"') || (c == b'\\')
    then some c
    else if c == b'b'
    then some 8
    else if c == b'f'
    then some 12
    else if c == b'n'
    then some 10
    else if c == b'r'
    then some 13
    else if c == b't'
    then some 9
    else none

push : Option ℕ → Option Str → Option Str
push none rest = none
push (some c) none = none
push (some c) (some s) = some (c ∷ s)

-- The reader: a string of ASCII characters between the quotes of a JSON text, or nothing if there is
-- a bare control character or quote, a bad escape, or a character that is not ASCII.
unfoldable pub read : Mode → Str → Option Str
unfolding digit_value letter_value push
read plain [] = some []
read behind [] = none
read (digits_left n v) [] = none
read plain (c ∷ s) =
    let escaped = read behind s in
    let rest = read plain s in
    if c == b'\\'
    then escaped
    else if ltb c 32 || (c == b'"') || leb 128 c
    then none
    else push (some c) rest
read behind (c ∷ s) =
    let hex = read (digits_left 4 0) s in
    let rest = read plain s in if c == b'u' then hex else push (letter_value c) rest
read (digits_left n v) (c ∷ s) = elim (digit_value c) [
  | none ↦ none
  | some d ↦
      let more = read (digits_left (n - 1) (v * 16 + d)) s in
      let rest = read plain s in
      if n == 1
      then (if ltb (v * 16 + d) 128 then push (some (v * 16 + d)) rest else none)
      else more
]

digit_value-hex_digit : (d : ℕ) → d < 16 → digit_value (hex_digit d) ≡ some d
unfolding digit_value hex_digit
digit_value-hex_digit d h = ground arith

-- The bytes that `make_escaped_string` writes as `\u00` and two digits
abbrev hidden : ℕ → Bool
hidden c =
    ltb c 32
    && (if (c == 8) || (c == 12) || (c == 9) || (c == 10) || (c == 13) then false else true)

read-digit :
    (v d : ℕ) (s : Str)
    → d < 16
    → read (digits_left 2 v) (hex_digit d ∷ s) ≡ read (digits_left 1 (v * 16 + d)) s
unfolding read
read-digit v d s h = rw (read, digit_value-hex_digit d h) refl

read-last_digit :
    (v d : ℕ) (s : Str)
    → d < 16
    → ltb (v * 16 + d) 128 ≡ true
    → read (digits_left 1 v) (hex_digit d ∷ s) ≡ push (some (v * 16 + d)) (read plain s)
unfolding read
read-last_digit v d s h fits = rw (read, digit_value-hex_digit d h, fits) refl

read-hex :
    (c : ℕ) (rest : Str)
    → c < 128
    → read (digits_left 2 0) (hex_digit (c / 16) ∷ hex_digit (c % 16) ∷ rest)
      ≡ push (some c) (read plain rest)
read-hex c rest small =
    let join : (0 * 16 + c / 16) * 16 + c % 16 ≡ c = omega arith in
    read-digit 0 (c / 16) (hex_digit (c % 16) ∷ rest) (omega arith)
    ∙ read-last_digit (0 * 16 + c / 16) (c % 16) rest (omega arith) (ground (arith, join))
    ∙ ap (λ x. push (some x) (read plain rest)) join

read-shown :
    (c : ℕ) (rest : Str)
    → c < 128
    → hidden c ≡ false
    → read plain (escape_char c ++ rest) ≡ push (some c) (read plain rest)
unfolding read escape_char
read-shown c rest small show = ground arith

read-escape_char :
    (c : ℕ) (rest : Str)
    → c < 128
    → read plain (escape_char c ++ rest) ≡ push (some c) (read plain rest)
unfolding read escape_char
read-escape_char c rest small =
    let low : leb 128 c ≡ false = ground arith in
    elim (Bool-cases (hidden c)) [
      | inl hide ↦ rw (low, hide) (read-hex c rest small)
      | inr show ↦ read-shown c rest small show
    ]

abbrev pub Ascii : Str → Type 0
Ascii [] = Unit
Ascii (c ∷ s) = (c < 128) × Ascii s

-- Any string of ASCII characters comes back from `make_escaped_string` when a reader of JSON strings
-- takes the escapes out again.
pub read-make_escaped_string : (s : Str) → Ascii s → read plain (make_escaped_string s) ≡ some s
unfolding make_escaped_string
read-make_escaped_string [] ascii = unfold read in refl
read-make_escaped_string (c ∷ s) (small, ascii) =
    read-escape_char c (make_escaped_string s) small
    ∙ ap (push (some c)) (read-make_escaped_string s ascii)
    ∙ pushed c s
  where
    pushed : (c : ℕ) (s : Str) → push (some c) (some s) ≡ some (c ∷ s)
    pushed c s = unfold push in refl

length-escape_char : (c : ℕ) → length (escape_char c) ≤ 6
unfolding escape_char
length-escape_char c = ground arith

escape_char-high : (a : ℕ) → 128 ≤ a → escape_char a ≡ codes "\\uffff"
unfolding escape_char
escape_char-high a h = let high : leb 128 a ≡ true = ground arith in rw high refl

-- `make_escaped_string` makes at most six bytes of each byte, which the allocation holds; and any two
-- bytes from 0x80 on are written alike, so such a string cannot be read back.
pub make_escaped_string_bounds :
    (s t : Str) (a b : ℕ)
    → 128 ≤ a
    → 128 ≤ b
    → (length (make_escaped_string s) + 1 ≤ length s * 6 + 1)
      × (make_escaped_string (a ∷ t) ≡ make_escaped_string (b ∷ t))
unfolding make_escaped_string
make_escaped_string_bounds s t a b ha hb = (
  length-le s,
  ap (λ x. x ++ make_escaped_string t) (escape_char-high a ha ∙ sym (escape_char-high b hb)),
)
  where
    length-le : (s : Str) → length (make_escaped_string s) + 1 ≤ length s * 6 + 1
    length-le [] = omega arith
    length-le (c ∷ s) = omega (
      arith,
      length-le s,
      length-escape_char c,
      length-append (escape_char c) (make_escaped_string s),
    )
