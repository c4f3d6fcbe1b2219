-- ===== src/Jsonw/Parse.antt =====
-- A reader of JSON texts, to compare with what src/ac_jsonw.c writes.
--
-- Strings are ASCII and have not the escape `\/`. Numbers are integers, or digits with a point in
-- them, which are kept as their text; they may have zeros in front or no digit at all. A value may stand without an object or array around it.
pub mod Lex
pub mod Strings
pub mod Scalars
pub mod Reals
pub mod Tree
pub mod Entries
pub mod Steps
pub mod RoundTrip
use libac.Prelude.{
  ℕ, zero, suc, ◌+◌, ◌-◌, ◌*◌, Bool, true, false, ◌||◌, ◌&&◌, Option, none, some, List, [], ◌∷◌,
  ◌++◌, leb, ◌==◌, if◌then◌else◌, length,
}
use libac.Prelude.Int.{ℤ, pos, negsuc}
use libac.Prelude.Text.{codes}
use libac.Str.{Str, same_str}
use libac.Jsonw.{reversed}
use libac.Jsonw.Escape.{plain, read}

mutual
  pub data Value : Type 0 where
    string : Str → Value
    number : ℤ → Value
    real : Str → Value
    truth : Bool → Value
    nothing : Value
    object : Members → Value
    array : Elements → Value

  pub data Members : Type 0 where
    no_members : Members
    member : Str → Value → Members → Members

  pub data Elements : Type 0 where
    no_elements : Elements
    element : Value → Elements → Elements

-- A punctuation character, or a string, number or word
pub data Token : Type 0 where
  brace_open brace_close bracket_open bracket_close colon comma : Token
  scalar : Value → Token

-- Between tokens; in a string, with its characters so far, the last one first; behind a backslash
-- there; in a number or word.
pub data LexMode : Type 0 where
  outside : LexMode
  in_string : Str → LexMode
  in_escape : Str → LexMode
  in_bare : Str → LexMode

unfoldable pub is_bare : ℕ → Bool
is_bare c = (leb b'0' c && leb c b'9') || (leb b'a' c && leb c b'z') || (c == b'-') || (c == b'.')

-- The tokens of a character that is not in a string, number or word
unfoldable pub punctuation : ℕ → Option (List Token)
punctuation c =
    if (c == b' ') || (c == b'\n') || (c == b'\t') || (c == b'\r')
    then some []
    else if c == b'{'
    then some (brace_open ∷ [])
    else if c == b'}'
    then some (brace_close ∷ [])
    else if c == b'['
    then some (bracket_open ∷ [])
    else if c == b']'
    then some (bracket_close ∷ [])
    else if c == b':'
    then some (colon ∷ [])
    else if c == b','
    then some (comma ∷ [])
    else none

-- The number of some digits, the last one first, and whether a sign stands in front
unfoldable pub digits_value : Str → Option (ℕ × Bool)
digits_value [] = some (0, false)
digits_value (c ∷ s) = elim (digits_value s) [
  | none ↦ none
  | some (n, minus) ↦
      if leb b'0' c && leb c b'9'
      then (if minus then some (n * 10 + (c - b'0'), true) else some (n * 10 + (c - b'0'), false))
      else if (c == b'-') && same_str s []
      then some (0, true)
      else none
]

unfoldable pub signed : Option (ℕ × Bool) → Option Value
signed none = none
signed (some (n, false)) = some (number (pos n))
signed (some (zero, true)) = some (number (pos 0))
signed (some (suc n, true)) = some (number (negsuc n))

-- Digits with a point before, in or behind them, perhaps with a sign in front
unfoldable pub all_digits : Str → Bool
all_digits [] = true
all_digits (c ∷ s) = leb b'0' c && leb c b'9' && all_digits s

unfoldable pub has_point : Str → Bool
unfolding all_digits
has_point [] = false
has_point (c ∷ s) =
    let rest = has_point s in if c == b'.' then all_digits s else leb b'0' c && leb c b'9' && rest

unfoldable pub is_fraction : Str → Bool
unfolding has_point
is_fraction [] = false
is_fraction (c ∷ s) = if c == b'-' then has_point s else has_point (c ∷ s)

unfoldable pub word : Str → Option Value
unfolding same_str
word s =
    if same_str s (codes "true")
    then some (truth true)
    else if same_str s (codes "false")
    then some (truth false)
    else if same_str s (codes "null")
    then some nothing
    else none

-- A number or word, the last character first
unfoldable pub bare_value : Str → Option Value
unfolding digits_value signed is_fraction word
bare_value acc =
    let s = reversed acc [] in
    elim (signed (digits_value acc)) [
      | some v ↦ some v
      | none ↦ if is_fraction s then some (real s) else word s
    ]

unfoldable pub add : Option (List Token) → Option (List Token) → Option (List Token)
add none rest = none
add (some ts) none = none
add (some ts) (some us) = some (ts ++ us)

unfoldable pub one : Option Value → Option (List Token)
one none = none
one (some v) = some (scalar v ∷ [])

unfoldable pub as_string : Option Str → Option Value
as_string none = none
as_string (some s) = some (string s)

-- The tokens of a text
unfoldable pub lex : LexMode → Str → Option (List Token)
unfolding add one as_string bare_value punctuation is_bare
lex outside [] = some []
lex (in_string acc) [] = none
lex (in_escape acc) [] = none
lex (in_bare acc) [] = one (bare_value acc)
lex outside (c ∷ s) =
    let text = lex (in_string []) s in
    let word = lex (in_bare (c ∷ [])) s in
    let rest = lex outside s in
    if c == b'"' then text else if is_bare c then word else add (punctuation c) rest
lex (in_string acc) (c ∷ s) =
    let rest = lex outside s in
    let behind = lex (in_escape (c ∷ acc)) s in
    let more = lex (in_string (c ∷ acc)) s in
    if c == b'"'
    then add (one (as_string (read plain (reversed acc [])))) rest
    else if c == b'\\'
    then behind
    else more
lex (in_escape acc) (c ∷ s) = lex (in_string (c ∷ acc)) s
lex (in_bare acc) (c ∷ s) =
    let more = lex (in_bare (c ∷ acc)) s in
    let rest = lex outside s in
    if is_bare c then more else add (one (bare_value acc)) (add (punctuation c) rest)

-- The key of a member: it stands behind a comma, but for the first one.
unfoldable pub key_at : Bool → List Token → Option (Str × List Token)
key_at true (scalar (string k) ∷ (colon ∷ ts)) = some (k, ts)
key_at false (comma ∷ (scalar (string k) ∷ (colon ∷ ts))) = some (k, ts)
key_at first ts = none

unfoldable pub item_at : Bool → List Token → Option (List Token)
item_at true ts = some ts
item_at false (comma ∷ ts) = some ts
item_at false ts = none

-- The tokens behind a closing bracket, if there is one
unfoldable pub after_brace : List Token → Option (List Token)
after_brace (brace_close ∷ ts) = some ts
after_brace ts = none

unfoldable pub after_bracket : List Token → Option (List Token)
after_bracket (bracket_close ∷ ts) = some ts
after_bracket ts = none

-- A value, and the members or elements up to the closing bracket; what is behind is left.
unfoldable mutual
  unfolding key_at item_at after_brace after_bracket

  pub parse_value : ℕ → List Token → Option (Value × List Token)
  parse_value zero ts = none
  parse_value (suc f) (scalar v ∷ ts) = some (v, ts)
  parse_value (suc f) (brace_open ∷ ts) = elim (parse_members f true ts) [
    | none ↦ none
    | some (ms, us) ↦ some (object ms, us)
  ]
  parse_value (suc f) (bracket_open ∷ ts) = elim (parse_elements f true ts) [
    | none ↦ none
    | some (es, us) ↦ some (array es, us)
  ]
  parse_value (suc f) ts = none

  pub parse_members : ℕ → Bool → List Token → Option (Members × List Token)
  parse_members zero first ts = none
  parse_members (suc f) first ts = elim (after_brace ts) [
    | some us ↦ some (no_members, us)
    | none ↦ elim (key_at first ts) [
      | none ↦ none
      | some (k, us) ↦ elim (parse_value f us) [
        | none ↦ none
        | some (v, vs) ↦ elim (parse_members f false vs) [
          | none ↦ none
          | some (ms, ws) ↦ some (member k v ms, ws)
        ]
      ]
    ]
  ]

  pub parse_elements : ℕ → Bool → List Token → Option (Elements × List Token)
  parse_elements zero first ts = none
  parse_elements (suc f) first ts = elim (after_bracket ts) [
    | some us ↦ some (no_elements, us)
    | none ↦ elim (item_at first ts) [
      | none ↦ none
      | some us ↦ elim (parse_value f us) [
        | none ↦ none
        | some (v, vs) ↦ elim (parse_elements f false vs) [
          | none ↦ none
          | some (es, ws) ↦ some (element v es, ws)
        ]
      ]
    ]
  ]

-- The value of a text, if all of it is one; no value takes more fuel than it has tokens.
unfoldable pub parse : Str → Option Value
unfolding lex parse_value
parse s = elim (lex outside s) [
  | none ↦ none
  | some ts ↦ elim (parse_value (suc (length ts)) ts) [
    | none ↦ none
    | some (v, us) ↦ elim us [ [] ↦ some v | u ∷ rest ↦ none ]
  ]
]
