-- ===== src/Jsonw/Parse/Entries.antt =====
-- The tokens of names and of what stands behind them.
use mathlib.Core.List.{append_assoc}
use libac.Prelude.{
  ◌≡◌, refl, sym, ap, ◌∙◌, true, false, none, some, [], ◌∷◌, ◌++◌, ltb, length, arith,
}
use libac.Prelude.Text.{codes}
use libac.Str.{Str}
use libac.Jsonw.{escape_char, make_escaped_string, name_text}
use libac.Jsonw.Escape.{Ascii}
use libac.Jsonw.Render.{Leaf, text, int, bool, null, str_or_null, real, leaf_text}
use libac.Jsonw.Parse.{string, colon, scalar, outside, is_bare, punctuation, add, lex}
use libac.Jsonw.Parse.Lex.{Free, Lexes, Free-Lexes, Free-append, punctuation-Free}
use libac.Jsonw.Parse.Strings.{quoted-Free}
use libac.Jsonw.Parse.Scalars.{true-Lexes, false-Lexes, null-Lexes, decimal-Lexes}
use libac.Jsonw.Parse.Reals.{real-Lexes}
use libac.Jsonw.Parse.Tree.{leaf_value, all_plain, LeafReadable}

plain_escaped : (k : Str) → all_plain k ≡ true → make_escaped_string k ≡ k
unfolding make_escaped_string escape_char
plain_escaped [] p = refl
plain_escaped (c ∷ k) p =
    let rest = plain_escaped k (ground arith) in
    let first : escape_char c ≡ c ∷ [] = ground arith in λ i. first i ++ rest i

plain-Ascii : (k : Str) → all_plain k ≡ true → Ascii k
plain-Ascii [] p = tt
plain-Ascii (c ∷ k) p = (ground arith, plain-Ascii k (ground arith))

colon_space : Free (codes ": ") (colon ∷ [])
unfolding lex punctuation is_bare add
colon_space s =
    Free-append (b':' ∷ []) (b' ' ∷ []) (colon ∷ []) []
      (punctuation-Free b':' (colon ∷ []) refl refl) (punctuation-Free b' ' [] refl refl) s

-- The name of a member
pub name-Free :
    (k : Str) → all_plain k ≡ true → Free (name_text (some k)) (scalar (string k) ∷ (colon ∷ []))
name-Free k p s =
    ap (λ t. lex outside ((b'"' ∷ t) ++ s)) (sym (append_assoc k (codes "\"") (codes ": ")))
    ∙ Free-append ((b'"' ∷ k) ++ codes "\"") (codes ": ") (scalar (string k) ∷ []) (colon ∷ [])
        quoted colon_space s
  where
    quoted : Free ((b'"' ∷ k) ++ codes "\"") (scalar (string k) ∷ [])
    quoted u =
        ap (λ t. lex outside (((b'"' ∷ t) ++ codes "\"") ++ u)) (sym (plain_escaped k p))
        ∙ quoted-Free k (plain-Ascii k p) u

quoted-Lexes :
    (s : Str)
    → Ascii s
    → Lexes ((b'"' ∷ make_escaped_string s) ++ codes "\"") (scalar (string s) ∷ [])
quoted-Lexes s ascii =
    Free-Lexes ((b'"' ∷ make_escaped_string s) ++ codes "\"") (scalar (string s) ∷ [])
      (quoted-Free s ascii)

pub leaf-Lexes : (l : Leaf) → LeafReadable l → Lexes (leaf_text l) (scalar (leaf_value l) ∷ [])
unfolding leaf_text
leaf-Lexes (text s) r = quoted-Lexes s r
leaf-Lexes (int n) r = decimal-Lexes n r
leaf-Lexes (bool true) r = true-Lexes
leaf-Lexes (bool false) r = false-Lexes
leaf-Lexes null r = null-Lexes
leaf-Lexes (real shown dp) r = real-Lexes (shown dp) r
leaf-Lexes (str_or_null none) r = null-Lexes
leaf-Lexes (str_or_null (some [])) r = null-Lexes
leaf-Lexes (str_or_null (some (c ∷ s))) r =
    let long : ltb 0 (length (c ∷ s)) ≡ true = ground arith in rw (long) (quoted-Lexes (c ∷ s) r)
