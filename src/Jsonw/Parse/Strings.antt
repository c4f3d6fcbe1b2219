-- ===== src/Jsonw/Parse/Strings.antt =====
-- The tokens of strings.
use mathlib.Core.List.{append_assoc, append-nil}
use libac.Prelude.{
  ℕ, ◌/◌, ◌%◌, ◌<◌, ◌≡◌, refl, sym, ap, ◌∙◌, Bool, true, false, ◌||◌, ◌&&◌, Bool-cases, inl, inr,
  [], ◌∷◌, ◌++◌, leb, ltb, ◌==◌, if◌then◌else◌, arith,
}
use libac.Prelude.Text.{codes}
use libac.Str.{Str}
use libac.Jsonw.{hex_digit, escape_char, make_escaped_string, reversed}
use libac.Jsonw.Escape.{plain, read, Ascii, read-make_escaped_string}
use libac.Jsonw.Parse.{string, scalar, outside, in_string, add, one, as_string, lex}
use libac.Jsonw.Parse.Lex.{Free}

reversed-append : (t u acc : Str) → reversed (t ++ u) acc ≡ reversed u (reversed t acc)
reversed-append [] u acc = refl
reversed-append (c ∷ t) u acc = reversed-append t u (c ∷ acc)

pub reversed_twice : (t acc out : Str) → reversed (reversed t acc) out ≡ reversed acc (t ++ out)
reversed_twice [] acc out = refl
reversed_twice (c ∷ t) acc out = reversed_twice t (c ∷ acc) out

hex_digit_inside :
    (d : ℕ) → d < 16 → ((hex_digit d == b'"') ≡ false) × ((hex_digit d == b'\\') ≡ false)
unfolding hex_digit
hex_digit_inside d h = (ground arith, ground arith)

-- The bytes that `make_escaped_string` writes with two digits
abbrev hidden : ℕ → Bool
hidden c =
    ltb c 32
    && (if (c == 8) || (c == 12) || (c == 9) || (c == 10) || (c == 13) then false else true)

step_inside :
    (c : ℕ) (acc rest : Str)
    → (c == b'"') ≡ false
    → (c == b'\\') ≡ false
    → lex (in_string acc) (c ∷ rest) ≡ lex (in_string (c ∷ acc)) rest
unfolding lex
step_inside c acc rest no_quote no_slash = rw (lex, no_quote, no_slash) refl

hidden_inside :
    (c : ℕ) (acc rest : Str)
    → c < 128
    → lex (in_string acc) (codes "\\u00" ++ (hex_digit (c / 16) ∷ hex_digit (c % 16) ∷ rest))
      ≡ lex
          (in_string (hex_digit (c % 16) ∷ hex_digit (c / 16) ∷ reversed (codes "\\u00") acc))
          rest
unfolding lex
hidden_inside c acc rest small =
    let (quote1, slash1) = hex_digit_inside (c / 16) (omega arith) in
    let (quote2, slash2) = hex_digit_inside (c % 16) (omega arith) in
    let start : Str = reversed (codes "\\u00") acc in
    step_inside (hex_digit (c / 16)) start (hex_digit (c % 16) ∷ rest) quote1 slash1
    ∙ step_inside (hex_digit (c % 16)) (hex_digit (c / 16) ∷ start) rest quote2 slash2

shown_inside :
    (c : ℕ) (acc rest : Str)
    → c < 128
    → hidden c ≡ false
    → lex (in_string acc) (escape_char c ++ rest)
      ≡ lex (in_string (reversed (escape_char c) acc)) rest
unfolding lex escape_char
shown_inside c acc rest small show = ground arith

escape_char_inside :
    (c : ℕ) (acc rest : Str)
    → c < 128
    → lex (in_string acc) (escape_char c ++ rest)
      ≡ lex (in_string (reversed (escape_char c) acc)) rest
unfolding escape_char
escape_char_inside c acc rest small =
    let low : leb 128 c ≡ false = ground arith in
    elim (Bool-cases (hidden c)) [
      | inl hide ↦ rw (low, hide) (hidden_inside c acc rest small)
      | inr show ↦ shown_inside c acc rest small show
    ]

escaped_inside :
    (s acc rest : Str)
    → Ascii s
    → lex (in_string acc) (make_escaped_string s ++ rest)
      ≡ lex (in_string (reversed (make_escaped_string s) acc)) rest
unfolding make_escaped_string
escaped_inside [] acc rest ascii = refl
escaped_inside (c ∷ s) acc rest (small, ascii) =
    let e : Str = escape_char c in
    let es : Str = make_escaped_string s in
    ap (lex (in_string acc)) (append_assoc e es rest)
    ∙ escape_char_inside c acc (es ++ rest) small
    ∙ escaped_inside s (reversed e acc) rest ascii
    ∙ ap (λ a. lex (in_string a) rest) (sym (reversed-append e es acc))

-- A string in quotes
pub quoted-Free :
    (s : Str)
    → Ascii s
    → Free ((b'"' ∷ make_escaped_string s) ++ codes "\"") (scalar (string s) ∷ [])
unfolding lex as_string one
quoted-Free s ascii rest =
    let es : Str = make_escaped_string s in
    let whole : reversed (reversed es []) [] ≡ es = reversed_twice es [] [] ∙ append-nil es in
    ap (lex (in_string [])) (append_assoc es (codes "\"") rest)
    ∙ escaped_inside s [] (b'"' ∷ rest) ascii
    ∙ ap (λ t. add (one (as_string (read plain t))) (lex outside rest)) whole
    ∙ ap (λ o. add (one (as_string o)) (lex outside rest)) (read-make_escaped_string s ascii)
