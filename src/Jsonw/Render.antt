-- ===== src/Jsonw/Render.antt =====
-- The calls that write a JSON document, and the text of the document.
pub mod Laws
use mathlib.Core.List.{append_assoc, append-nil}
use libac.Prelude.{
  ℕ, zero, suc, ◌+◌, ◌-◌, ◌%◌, ◌^◌, ◌≤◌, ◌<◌, ◌≡◌, ◌⊎◌, refl, sym, ap, ◌∙◌, Bool, true, false,
  Bool-cases, inl, inr, Option, none, some, List, [], ◌∷◌, ◌++◌, ltb, if◌then◌else◌, length,
  length-append, arith,
}
use libac.Prelude.Int.{ℤ}
use libac.Prelude.Text.{codes}
use libac.Str.{Str}
use libac.Jsonw.{
  Jsonw, indent_of, build_str, make_escaped_string, decimal, name_text, add_str, add_int, add_bool,
  add_null, add_str_or_null, add_real, add_array, add_object, json_end, end_array, end_object, end,
  init, set_indenter,
}
use libac.Jsonw.Buffer.{indents, IsWriter, with_text, margin, Writes, build_str-Writes}
use libac.Jsonw.Closing.{separator, gap, kept, tail_of, Closes, json_end-Closes}

-- What is added by one call. The string of `str_or_null` may be NULL; a real is what the conversion
-- makes of it for the decimal places given, and these.
pub data Leaf : Type 0 where
  text : Str → Leaf
  int : ℤ → Leaf
  bool : Bool → Leaf
  null : Leaf
  str_or_null : Option Str → Leaf
  real : (ℤ → Str) → ℤ → Leaf

-- The fields of an object and the items of an array. The calls give no way to put an array into an
-- array, as `ac_jsonw_add_array` always writes a name.
mutual
  pub data Fields : Type 0 where
    no_fields : Fields
    leaf_field : Str → Leaf → Fields → Fields
    object_field : Str → Fields → Fields → Fields
    array_field : Str → Items → Fields → Fields

  pub data Items : Type 0 where
    no_items : Items
    leaf_item : Leaf → Items → Items
    object_item : Fields → Items → Items

abbrev and_then : Option Jsonw → (Jsonw → Option Jsonw) → Option Jsonw
and_then run f = elim run [ none ↦ none | some json ↦ f json ]

-- The call for a leaf
pub write_leaf : Option Str → Leaf → Jsonw → Option Jsonw
write_leaf name (text s) = add_str name s
write_leaf name (int n) = add_int name n
write_leaf name (bool b) = add_bool name b
write_leaf name null = add_null name
write_leaf name (str_or_null s) = add_str_or_null name s
write_leaf name (real shown dp) = add_real name shown dp

-- The calls for the fields of an object, and for the items of an array
mutual
  pub write_fields : Fields → Jsonw → Option Jsonw
  write_fields no_fields json = some json
  write_fields (leaf_field k l rest) json =
      and_then (write_leaf (some k) l json) (write_fields rest)
  write_fields (object_field k fs rest) json =
      and_then (and_then (and_then (add_object (some k) json) (write_fields fs)) end_object)
        (write_fields rest)
  write_fields (array_field k xs rest) json =
      and_then (and_then (and_then (add_array k json) (write_items xs)) end_array)
        (write_fields rest)

  pub write_items : Items → Jsonw → Option Jsonw
  write_items no_items json = some json
  write_items (leaf_item l rest) json = and_then (write_leaf none l json) (write_items rest)
  write_items (object_item fs rest) json =
      and_then (and_then (and_then (add_object none json) (write_fields fs)) end_object)
        (write_items rest)

-- The calls for a document
pub write_document : Str → Fields → Option Jsonw
write_document ind fs = and_then (write_fields fs (set_indenter ind init)) end

-- The text of a leaf
abbrev quoted : Str → Str
quoted s = (b'"' ∷ make_escaped_string s) ++ codes "\""

unfoldable pub leaf_text : Leaf → Str
leaf_text (text s) = quoted s
leaf_text (int n) = decimal n
leaf_text (bool b) = if b then codes "true" else codes "false"
leaf_text null = codes "null"
leaf_text (str_or_null none) = codes "null"
leaf_text (str_or_null (some s)) = if ltb 0 (length s) then quoted s else codes "null"
leaf_text (real shown dp) = shown dp

-- Lines with a comma and a line feed between them
unfoldable pub join : List Str → Str
join [] = []
join (e ∷ []) = e
join (e ∷ f ∷ es) = e ++ (codes ",\n" ++ join (f ∷ es))

module _ (ind : Str) where
  -- What stands between the brackets at a depth: nothing, or a line for each entry
  unfoldable pub interior : ℕ → List Str → Str
  interior d [] = []
  interior d (e ∷ es) = b'\n' ∷ (join (e ∷ es) ++ (b'\n' ∷ indents d ind))

  unfoldable pub block : ℕ → ℕ → ℕ → List Str → Str
  block d opening closing es = opening ∷ (interior d es ++ closing ∷ [])

  -- The lines of an object's fields and of an array's items at a depth
  unfoldable mutual
    pub field_lines : ℕ → Fields → List Str
    field_lines d no_fields = []
    field_lines d (leaf_field k l rest) =
        (indents d ind ++ (name_text (some k) ++ leaf_text l)) ∷ field_lines d rest
    field_lines d (object_field k fs rest) =
        (indents d ind ++ (name_text (some k) ++ block d b'{' b'}' (field_lines (suc d) fs)))
        ∷ field_lines d rest
    field_lines d (array_field k xs rest) =
        (indents d ind ++ (name_text (some k) ++ block d b'[' b']' (item_lines (suc d) xs)))
        ∷ field_lines d rest

    pub item_lines : ℕ → Items → List Str
    item_lines d no_items = []
    item_lines d (leaf_item l rest) = (indents d ind ++ leaf_text l) ∷ item_lines d rest
    item_lines d (object_item fs rest) =
        (indents d ind ++ block d b'{' b'}' (field_lines (suc d) fs)) ∷ item_lines d rest

  -- The text of a document
  unfoldable pub document : Fields → Str
  document fs = block 0 b'{' b'}' (field_lines 1 fs)

-- The depth stays below 256.
unfoldable mutual
  pub FieldsFit : ℕ → Fields → Type 0
  FieldsFit d no_fields = d < 2 ^ 8
  FieldsFit d (leaf_field k l rest) = FieldsFit d rest
  FieldsFit d (object_field k fs rest) = FieldsFit (suc d) fs × FieldsFit d rest
  FieldsFit d (array_field k xs rest) = ItemsFit (suc d) xs × FieldsFit d rest

  pub ItemsFit : ℕ → Items → Type 0
  ItemsFit d no_items = d < 2 ^ 8
  ItemsFit d (leaf_item l rest) = ItemsFit d rest
  ItemsFit d (object_item fs rest) = FieldsFit (suc d) fs × ItemsFit d rest
