-- ===== src/Jsonw/Parse/Tree.antt =====
-- The value that a document stands for, its tokens, and what the reader makes of them.
use libac.Prelude.{
  ◌≤◌, ◌≡◌, refl, Bool, true, false, ◌&&◌, none, some, List, [], ◌∷◌, ◌++◌, leb, ltb, ◌==◌,
  if◌then◌else◌, length, arith,
}
use libac.Str.{Str}
use libac.Jsonw.Escape.{Ascii}
use libac.Jsonw.Render.{
  Leaf, text, int, bool, null, str_or_null, real, Fields, no_fields, leaf_field, object_field,
  array_field, Items, no_items, leaf_item, object_item,
}
use libac.Jsonw.Parse.{
  Value, string, number, is_fraction, truth, nothing, object, array, Members, no_members, member,
  Elements, no_elements, element, Token, brace_open, brace_close, bracket_open, bracket_close,
  colon, comma, scalar,
}
use libac.Jsonw.Parse.Scalars.{Int64}

abbrev pub leaf_value : Leaf → Value
leaf_value (text s) = string s
leaf_value (int n) = number n
leaf_value (bool b) = truth b
leaf_value null = nothing
leaf_value (str_or_null none) = nothing
leaf_value (str_or_null (some [])) = nothing
leaf_value (str_or_null (some (c ∷ s))) = string (c ∷ s)
leaf_value (real shown dp) = Value.real (shown dp)

unfoldable mutual
  pub members_of : Fields → Members
  members_of no_fields = no_members
  members_of (leaf_field k l rest) = member k (leaf_value l) (members_of rest)
  members_of (object_field k fs rest) = member k (object (members_of fs)) (members_of rest)
  members_of (array_field k xs rest) = member k (array (elements_of xs)) (members_of rest)

  pub elements_of : Items → Elements
  elements_of no_items = no_elements
  elements_of (leaf_item l rest) = element (leaf_value l) (elements_of rest)
  elements_of (object_item fs rest) = element (object (members_of fs)) (elements_of rest)

-- Names that need no escapes, strings of ASCII characters, integers of 64 bits, and reals whose text
-- has a point
abbrev pub all_plain : Str → Bool
all_plain [] = true
all_plain (c ∷ s) =
    (leb 32 c && ltb c 128 && (if c == b'"' then false else if c == b'\\' then false else true))
    && all_plain s

abbrev pub LeafReadable : Leaf → Type 0
LeafReadable (text s) = Ascii s
LeafReadable (int n) = Int64 n
LeafReadable (bool b) = Unit
LeafReadable null = Unit
LeafReadable (str_or_null none) = Unit
LeafReadable (str_or_null (some s)) = Ascii s
LeafReadable (real shown dp) = is_fraction (shown dp) ≡ true

unfoldable mutual
  pub FieldsReadable : Fields → Type 0
  FieldsReadable no_fields = Unit
  FieldsReadable (leaf_field k l rest) = (all_plain k ≡ true) × LeafReadable l × FieldsReadable rest
  FieldsReadable (object_field k fs rest) =
      (all_plain k ≡ true) × FieldsReadable fs × FieldsReadable rest
  FieldsReadable (array_field k xs rest) =
      (all_plain k ≡ true) × ItemsReadable xs × FieldsReadable rest

  pub ItemsReadable : Items → Type 0
  ItemsReadable no_items = Unit
  ItemsReadable (leaf_item l rest) = LeafReadable l × ItemsReadable rest
  ItemsReadable (object_item fs rest) = FieldsReadable fs × ItemsReadable rest

-- The tokens with the closing bracket; a comma stands before every entry but the first.
abbrev pub comma_unless : Bool → List Token → List Token
comma_unless true ts = ts
comma_unless false ts = comma ∷ ts

unfoldable mutual
  pub field_tokens : Bool → Fields → List Token
  field_tokens first no_fields = brace_close ∷ []
  field_tokens first (leaf_field k l rest) =
      comma_unless first
        (scalar (string k) ∷ (colon ∷ (scalar (leaf_value l) ∷ field_tokens false rest)))
  field_tokens first (object_field k fs rest) = comma_unless first (
      scalar (string k)
      ∷ (colon ∷ (brace_open ∷ (field_tokens true fs ++ field_tokens false rest))))
  field_tokens first (array_field k xs rest) = comma_unless first (
      scalar (string k)
      ∷ (colon ∷ (bracket_open ∷ (item_tokens true xs ++ field_tokens false rest))))

  pub item_tokens : Bool → Items → List Token
  item_tokens first no_items = bracket_close ∷ []
  item_tokens first (leaf_item l rest) =
      comma_unless first (scalar (leaf_value l) ∷ item_tokens false rest)
  item_tokens first (object_item fs rest) =
      comma_unless first (brace_open ∷ (field_tokens true fs ++ item_tokens false rest))

pub comma_unless-append :
    (first : Bool) (ts us : List Token)
    → comma_unless first ts ++ us ≡ comma_unless first (ts ++ us)
comma_unless-append true ts us = refl
comma_unless-append false ts us = refl

pub length-comma_unless :
    (first : Bool) (ts : List Token) → length ts ≤ length (comma_unless first ts)
length-comma_unless true ts = omega arith
length-comma_unless false ts = omega arith
