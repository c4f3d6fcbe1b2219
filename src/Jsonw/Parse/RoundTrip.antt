-- ===== src/Jsonw/Parse/RoundTrip.antt =====
-- The text of a document, read back.
use mathlib.Core.List.{append_assoc, append-nil}
use libac.Prelude.{
  ℕ, suc, ◌≤◌, ◌≡◌, refl, sym, ap, ◌∙◌, true, false, Option, some, List, [], ◌∷◌, ◌++◌, length,
  arith,
}
use libac.Prelude.Text.{codes}
use libac.Str.{Str}
use libac.Jsonw.{Jsonw, name_text, get}
use libac.Jsonw.Buffer.{indents}
use libac.Jsonw.Render.{
  Leaf, Fields, no_fields, leaf_field, object_field, array_field, Items, no_items, leaf_item,
  object_item, leaf_text, join, interior, block, field_lines, item_lines, document, FieldsFit,
  write_document,
}
use libac.Jsonw.Render.Laws.{write_document_lem}
use libac.Jsonw.Parse.{
  string, object, Token, brace_open, brace_close, bracket_open, bracket_close, colon, comma, scalar,
  outside, is_bare, punctuation, add, lex, parse_value, parse_members, parse,
}
use libac.Jsonw.Parse.Lex.{
  delimits, Free, Lexes, Free-Lexes, Free-append, Free-Lexes-append, punctuation-Free, all_blank,
  indents-Free, add_assoc,
}
use libac.Jsonw.Parse.Tree.{
  leaf_value, members_of, all_plain, LeafReadable, FieldsReadable, ItemsReadable, field_tokens,
  item_tokens,
}
use libac.Jsonw.Parse.Entries.{name-Free, leaf-Lexes}
use libac.Jsonw.Parse.Steps.{parse_members-tokens}

-- The lines behind the first one
tail_text : List Str → Str
tail_text [] = []
tail_text (e ∷ es) = codes ",\n" ++ (e ++ tail_text es)

join-tail : (e : Str) (es : List Str) → join (e ∷ es) ≡ e ++ tail_text es
unfolding join tail_text
join-tail e [] = sym (append-nil e)
join-tail e (f ∷ es) = ap (λ t. e ++ (codes ",\n" ++ t)) (join-tail f es)

-- A line, with a delimiter behind it whatever lines follow
entry_then :
    (e : Str) (es : List Str) (u : Str) (ts us : List Token) (x : Option (List Token))
    → Lexes e ts
    → lex outside (tail_text es ++ b'\n' ∷ u) ≡ add (some us) x
    → lex outside (e ++ (tail_text es ++ b'\n' ∷ u)) ≡ add (some (ts ++ us)) x
unfolding tail_text is_bare
entry_then e [] u ts us x le lt = le b'\n' u refl ∙ ap (add (some ts)) lt ∙ add_assoc ts us x
entry_then e (f ∷ es) u ts us x le lt = le b',' _ refl ∙ ap (add (some ts)) lt ∙ add_assoc ts us x

comma_line : Free (codes ",\n") (comma ∷ [])
unfolding punctuation is_bare
comma_line s =
    Free-append (b',' ∷ []) (b'\n' ∷ []) (comma ∷ []) []
      (punctuation-Free b',' (comma ∷ []) refl refl) (punctuation-Free b'\n' [] refl refl) s

tail_then :
    (e : Str) (es : List Str) (u : Str) (ts us : List Token) (x : Option (List Token))
    → Lexes e ts
    → lex outside (tail_text es ++ b'\n' ∷ u) ≡ add (some us) x
    → lex outside (tail_text (e ∷ es) ++ b'\n' ∷ u) ≡ add (some (comma ∷ (ts ++ us))) x
unfolding tail_text
tail_then e es u ts us x le lt =
    ap (λ t. lex outside (codes ",\n" ++ t)) (append_assoc e (tail_text es) (b'\n' ∷ u))
    ∙ comma_line (e ++ (tail_text es ++ b'\n' ∷ u))
    ∙ ap (add (some (comma ∷ []))) (entry_then e es u ts us x le lt)
    ∙ add_assoc (comma ∷ []) (ts ++ us) x

module _ (ind : Str) (blanks : all_blank ind ≡ true) where
  -- What closes a block
  abbrev ending : ℕ → ℕ → Str → Str
  ending d closing s = b'\n' ∷ (indents d ind ++ closing ∷ s)

  ending-lex :
      (d closing : ℕ) (s : Str) (t : Token)
      → delimits closing ≡ true
      → punctuation closing ≡ some (t ∷ [])
      → lex outside (ending d closing s) ≡ add (some (t ∷ [])) (lex outside s)
  unfolding is_bare punctuation
  ending-lex d closing s t ends is =
      ap (λ u. lex outside (b'\n' ∷ u)) (sym (append_assoc (indents d ind) (closing ∷ []) s))
      ∙ Free-append (b'\n' ∷ indents d ind) (closing ∷ []) [] (t ∷ [])
          (Free-append (b'\n' ∷ []) (indents d ind) [] [] (punctuation-Free b'\n' [] refl refl)
            (indents-Free d ind blanks))
          (punctuation-Free closing (t ∷ []) ends is) s

  block_text :
      (d opening closing : ℕ) (e : Str) (es : List Str) (s : Str)
      → block ind d opening closing (e ∷ es) ++ s
        ≡ opening ∷ (b'\n' ∷ (e ++ (tail_text es ++ ending d closing s)))
  unfolding block interior
  block_text d opening closing e es s =
      ap (λ j. opening ∷ (b'\n' ∷ (((j ++ (b'\n' ∷ indents d ind)) ++ closing ∷ []) ++ s)))
        (join-tail e es)
      ∙ (simp (append_assoc) refl)

  -- A block with a first entry
  block_then :
      (d opening closing : ℕ) (o : Token) (e : Str) (es : List Str) (ts us : List Token)
      → delimits opening ≡ true
      → punctuation opening ≡ some (o ∷ [])
      → Lexes e ts
      → ((s : Str)
          → lex outside (tail_text es ++ ending d closing s) ≡ add (some us) (lex outside s))
      → Free (block ind d opening closing (e ∷ es)) (o ∷ (ts ++ us))
  unfolding is_bare punctuation
  block_then d opening closing o e es ts us ends is le lt s =
      ap (lex outside) (block_text d opening closing e es s)
      ∙ punctuation-Free opening (o ∷ []) ends is
          (b'\n' ∷ (e ++ (tail_text es ++ ending d closing s)))
      ∙ ap (add (some (o ∷ [])))
          (punctuation-Free b'\n' [] refl refl (e ++ (tail_text es ++ ending d closing s)))
      ∙ add_assoc (o ∷ []) [] (lex outside (e ++ (tail_text es ++ ending d closing s)))
      ∙ ap (add (some (o ∷ [])))
          (entry_then e es (indents d ind ++ closing ∷ s) ts us (lex outside s) le (lt s))
      ∙ add_assoc (o ∷ []) (ts ++ us) (lex outside s)

  -- A block without entries
  block_empty :
      (d opening closing : ℕ) (o c : Token)
      → delimits opening ≡ true
      → punctuation opening ≡ some (o ∷ [])
      → delimits closing ≡ true
      → punctuation closing ≡ some (c ∷ [])
      → Free (block ind d opening closing []) (o ∷ (c ∷ []))
  unfolding block interior
  block_empty d opening closing o c oe ois ce cis s =
      Free-append (opening ∷ []) (closing ∷ []) (o ∷ []) (c ∷ [])
        (punctuation-Free opening (o ∷ []) oe ois) (punctuation-Free closing (c ∷ []) ce cis) s

  leaf_line :
      (d : ℕ) (k : Str) (l : Leaf)
      → all_plain k ≡ true
      → LeafReadable l
      → Lexes
          (indents d ind ++ (name_text (some k) ++ leaf_text l))
          (scalar (string k) ∷ (colon ∷ (scalar (leaf_value l) ∷ [])))
  leaf_line d k l p r =
      Free-Lexes-append (indents d ind) (name_text (some k) ++ leaf_text l) []
        (scalar (string k) ∷ (colon ∷ (scalar (leaf_value l) ∷ []))) (indents-Free d ind blanks)
        (Free-Lexes-append (name_text (some k)) (leaf_text l) (scalar (string k) ∷ (colon ∷ []))
          (scalar (leaf_value l) ∷ []) (name-Free k p) (leaf-Lexes l r))

  nested_line :
      (d : ℕ) (k b : Str) (ts : List Token)
      → all_plain k ≡ true
      → Free b ts
      → Lexes (indents d ind ++ (name_text (some k) ++ b)) (scalar (string k) ∷ (colon ∷ ts))
  nested_line d k b ts p free =
      Free-Lexes-append (indents d ind) (name_text (some k) ++ b) []
        (scalar (string k) ∷ (colon ∷ ts)) (indents-Free d ind blanks)
        (Free-Lexes-append (name_text (some k)) b (scalar (string k) ∷ (colon ∷ [])) ts
          (name-Free k p) (Free-Lexes b ts free))

  indented : (d : ℕ) (b : Str) (ts : List Token) → Lexes b ts → Lexes (indents d ind ++ b) ts
  indented d b ts le = Free-Lexes-append (indents d ind) b [] ts (indents-Free d ind blanks) le

  -- The tokens of the lines behind an entry, with the closing bracket; and of a whole block
  mutual
    unfolding field_lines item_lines field_tokens item_tokens FieldsReadable ItemsReadable tail_text
        is_bare punctuation

    fields_tail :
        (d : ℕ) (fs : Fields) (s : Str)
        → FieldsReadable fs
        → lex outside (tail_text (field_lines ind (suc d) fs) ++ ending d b'}' s)
          ≡ add (some (field_tokens false fs)) (lex outside s)
    fields_tail d no_fields s r = ending-lex d b'}' s brace_close refl refl
    fields_tail d (leaf_field k l rest) s (p, r, rs) =
        tail_then (indents (suc d) ind ++ (name_text (some k) ++ leaf_text l))
          (field_lines ind (suc d) rest) (indents d ind ++ b'}' ∷ s)
          (scalar (string k) ∷ (colon ∷ (scalar (leaf_value l) ∷ []))) (field_tokens false rest)
          (lex outside s) (leaf_line (suc d) k l p r) (fields_tail d rest s rs)
    fields_tail d (object_field k fs rest) s (p, r, rs) =
        tail_then
          (indents (suc d) ind
            ++ (name_text (some k)
                ++ block ind (suc d) b'{' b'}' (field_lines ind (suc (suc d)) fs)))
          (field_lines ind (suc d) rest) (indents d ind ++ b'}' ∷ s)
          (scalar (string k) ∷ (colon ∷ (brace_open ∷ field_tokens true fs)))
          (field_tokens false rest) (lex outside s)
          (nested_line (suc d) k _ (brace_open ∷ field_tokens true fs) p
            (fields_block (suc d) fs r))
          (fields_tail d rest s rs)
    fields_tail d (array_field k xs rest) s (p, r, rs) =
        tail_then
          (indents (suc d) ind
            ++ (name_text (some k)
                ++ block ind (suc d) b'[' b']' (item_lines ind (suc (suc d)) xs)))
          (field_lines ind (suc d) rest) (indents d ind ++ b'}' ∷ s)
          (scalar (string k) ∷ (colon ∷ (bracket_open ∷ item_tokens true xs)))
          (field_tokens false rest) (lex outside s)
          (nested_line (suc d) k _ (bracket_open ∷ item_tokens true xs) p
            (items_block (suc d) xs r))
          (fields_tail d rest s rs)

    fields_block :
        (d : ℕ) (fs : Fields)
        → FieldsReadable fs
        → Free
            (block ind d b'{' b'}' (field_lines ind (suc d) fs))
            (brace_open ∷ field_tokens true fs)
    fields_block d no_fields r = block_empty d b'{' b'}' brace_open brace_close refl refl refl refl
    fields_block d (leaf_field k l rest) (p, r, rs) =
        block_then d b'{' b'}' brace_open _ (field_lines ind (suc d) rest)
          (scalar (string k) ∷ (colon ∷ (scalar (leaf_value l) ∷ []))) (field_tokens false rest)
          refl refl (leaf_line (suc d) k l p r) (λ s. fields_tail d rest s rs)
    fields_block d (object_field k fs rest) (p, r, rs) =
        block_then d b'{' b'}' brace_open _ (field_lines ind (suc d) rest)
          (scalar (string k) ∷ (colon ∷ (brace_open ∷ field_tokens true fs)))
          (field_tokens false rest) refl refl
          (nested_line (suc d) k _ (brace_open ∷ field_tokens true fs) p
            (fields_block (suc d) fs r))
          (λ s. fields_tail d rest s rs)
    fields_block d (array_field k xs rest) (p, r, rs) =
        block_then d b'{' b'}' brace_open _ (field_lines ind (suc d) rest)
          (scalar (string k) ∷ (colon ∷ (bracket_open ∷ item_tokens true xs)))
          (field_tokens false rest) refl refl
          (nested_line (suc d) k _ (bracket_open ∷ item_tokens true xs) p
            (items_block (suc d) xs r))
          (λ s. fields_tail d rest s rs)

    items_tail :
        (d : ℕ) (xs : Items) (s : Str)
        → ItemsReadable xs
        → lex outside (tail_text (item_lines ind (suc d) xs) ++ ending d b']' s)
          ≡ add (some (item_tokens false xs)) (lex outside s)
    items_tail d no_items s r = ending-lex d b']' s bracket_close refl refl
    items_tail d (leaf_item l rest) s (r, rs) =
        tail_then (indents (suc d) ind ++ leaf_text l) (item_lines ind (suc d) rest)
          (indents d ind ++ b']' ∷ s) (scalar (leaf_value l) ∷ []) (item_tokens false rest)
          (lex outside s) (indented (suc d) (leaf_text l) _ (leaf-Lexes l r))
          (items_tail d rest s rs)
    items_tail d (object_item fs rest) s (r, rs) =
        tail_then
          (indents (suc d) ind ++ block ind (suc d) b'{' b'}' (field_lines ind (suc (suc d)) fs))
          (item_lines ind (suc d) rest) (indents d ind ++ b']' ∷ s)
          (brace_open ∷ field_tokens true fs) (item_tokens false rest) (lex outside s)
          (indented (suc d) _ _ (Free-Lexes _ _ (fields_block (suc d) fs r)))
          (items_tail d rest s rs)

    items_block :
        (d : ℕ) (xs : Items)
        → ItemsReadable xs
        → Free
            (block ind d b'[' b']' (item_lines ind (suc d) xs))
            (bracket_open ∷ item_tokens true xs)
    items_block d no_items r =
        block_empty d b'[' b']' bracket_open bracket_close refl refl refl refl
    items_block d (leaf_item l rest) (r, rs) =
        block_then d b'[' b']' bracket_open _ (item_lines ind (suc d) rest)
          (scalar (leaf_value l) ∷ []) (item_tokens false rest) refl refl
          (indented (suc d) (leaf_text l) _ (leaf-Lexes l r)) (λ s. items_tail d rest s rs)
    items_block d (object_item fs rest) (r, rs) =
        block_then d b'[' b']' bracket_open _ (item_lines ind (suc d) rest)
          (brace_open ∷ field_tokens true fs) (item_tokens false rest) refl refl
          (indented (suc d) _ _ (Free-Lexes _ _ (fields_block (suc d) fs r)))
          (λ s. items_tail d rest s rs)

  document-tokens :
      (fs : Fields)
      → FieldsReadable fs
      → lex outside (document ind fs) ≡ some (brace_open ∷ field_tokens true fs)
  unfolding document lex add
  document-tokens fs r =
      ap (lex outside) (sym (append-nil (document ind fs)))
      ∙ fields_block 0 fs r []
      ∙ ap some (append-nil (brace_open ∷ field_tokens true fs))

document_value :
    (fs : Fields) (n : ℕ)
    → length (field_tokens true fs) ≤ n
    → parse_value (suc n) (brace_open ∷ field_tokens true fs) ≡ some (object (members_of fs), [])
unfolding parse_value
document_value fs n le =
    let inner =
      ap (parse_members n true) (sym (append-nil (field_tokens true fs)))
      ∙ parse_members-tokens n true fs [] le in
    rw (inner) refl

-- A reader of JSON texts, a lexer and a parser, gets back every document that is written by calls of
-- the writer: its names, strings, numbers, words, objects and arrays in their order. This holds for an
-- indenter of at most 16 blanks or tabs, at most 255 levels, names of ASCII characters that need no
-- escape, strings of ASCII characters, integers of 64 bits, and reals whose text is digits with a point,
-- perhaps with a sign in front; these come back as their text. An empty string that is added by
-- `ac_jsonw_add_str_or_null` comes back as null.
pub parse-write_document :
    (ind : Str) (fs : Fields)
    → length ind ≤ 16
    → all_blank ind ≡ true
    → FieldsFit 1 fs
    → FieldsReadable fs
    → (json : Jsonw) × (write_document ind fs ≡ some json)
      × (parse (get json) ≡ some (object (members_of fs)))
unfolding parse
parse-write_document ind fs short blanks fit readable =
    let (json, run, shown, room) = write_document_lem ind fs short fit in
    let tokens = ap (lex outside) shown ∙ document-tokens ind blanks fs readable in
    let value = document_value fs (length (brace_open ∷ field_tokens true fs)) (omega arith) in
    (json, run, rw (parse, tokens, value) refl)
