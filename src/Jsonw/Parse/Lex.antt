-- ===== src/Jsonw/Parse/Lex.antt =====
-- The tokens of the pieces that a JSON text is made of.
use mathlib.Core.List.{append_assoc}
use libac.Prelude.{
  ℕ, zero, suc, ◌≡◌, refl, sym, ap, ◌∙◌, Bool, true, false, ◌||◌, ◌&&◌, Option, none, some, List,
  [], ◌∷◌, ◌++◌, ◌==◌, if◌then◌else◌, arith,
}
use libac.Str.{Str}
use libac.Jsonw.Buffer.{indents}
use libac.Jsonw.Parse.{Token, outside, is_bare, punctuation, add, lex}

pub add_nothing : (x : Option (List Token)) → add (some []) x ≡ x
unfolding add
add_nothing none = refl
add_nothing (some us) = refl

pub add_assoc :
    (ts us : List Token) (x : Option (List Token))
    → add (some ts) (add (some us) x) ≡ add (some (ts ++ us)) x
unfolding add
add_assoc ts us none = refl
add_assoc ts us (some vs) = ap some (sym (append_assoc ts us vs))

-- A character that ends a number or word
abbrev pub delimits : ℕ → Bool
delimits c = if c == b'"' then false else if is_bare c then false else true

-- A text has these tokens whatever stands behind it, or if a delimiter does.
abbrev pub Free : Str → List Token → Type 0
Free t ts = (s : Str) → lex outside (t ++ s) ≡ add (some ts) (lex outside s)

abbrev pub Lexes : Str → List Token → Type 0
Lexes t ts =
    (c : ℕ) (s : Str)
    → delimits c ≡ true
    → lex outside (t ++ c ∷ s) ≡ add (some ts) (lex outside (c ∷ s))

pub Free-Lexes : (t : Str) (ts : List Token) → Free t ts → Lexes t ts
Free-Lexes t ts free c s ends = free (c ∷ s)

pub Free-append :
    (t u : Str) (ts us : List Token) → Free t ts → Free u us → Free (t ++ u) (ts ++ us)
Free-append t u ts us ft fu s =
    ap (lex outside) (append_assoc t u s)
    ∙ ft (u ++ s)
    ∙ ap (add (some ts)) (fu s)
    ∙ add_assoc ts us (lex outside s)

pub Free-Lexes-append :
    (t u : Str) (ts us : List Token) → Free t ts → Lexes u us → Lexes (t ++ u) (ts ++ us)
Free-Lexes-append t u ts us ft lu c s ends =
    ap (lex outside) (append_assoc t u (c ∷ s))
    ∙ ft (u ++ c ∷ s)
    ∙ ap (add (some ts)) (lu c s ends)
    ∙ add_assoc ts us (lex outside (c ∷ s))

pub punctuation-Free :
    (c : ℕ) (ts : List Token) → delimits c ≡ true → punctuation c ≡ some ts → Free (c ∷ []) ts
unfolding lex
punctuation-Free c ts ends is s =
    let no_quote : (c == b'"') ≡ false = ground arith in
    let no_bare : is_bare c ≡ false = ground arith in rw (lex, no_quote, no_bare, is) refl

-- White space
abbrev pub blank : ℕ → Bool
blank c = (c == b' ') || (c == b'\t')

abbrev pub all_blank : Str → Bool
all_blank [] = true
all_blank (c ∷ s) = blank c && all_blank s

delimits-blank : (c : ℕ) → blank c ≡ true → delimits c ≡ true
unfolding is_bare
delimits-blank c b = ground arith

punctuation-blank : (c : ℕ) → blank c ≡ true → punctuation c ≡ some []
unfolding punctuation
punctuation-blank c b = ground arith

pub blanks-Free : (t : Str) → all_blank t ≡ true → Free t []
blanks-Free [] b s = sym (add_nothing (lex outside s))
blanks-Free (c ∷ t) b s =
    let first : blank c ≡ true = ground arith in
    let rest : all_blank t ≡ true = ground arith in
    Free-append (c ∷ []) t [] []
      (punctuation-Free c [] (delimits-blank c first) (punctuation-blank c first))
      (blanks-Free t rest) s

pub indents-Free : (d : ℕ) (ind : Str) → all_blank ind ≡ true → Free (indents d ind) []
unfolding indents
indents-Free zero ind b s = sym (add_nothing (lex outside s))
indents-Free (suc d) ind b s =
    Free-append ind (indents d ind) [] [] (blanks-Free ind b) (indents-Free d ind b) s
