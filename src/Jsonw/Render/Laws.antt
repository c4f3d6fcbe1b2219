-- ===== src/Jsonw/Render/Laws.antt =====
-- Each call of a document adds its part of the text.
use mathlib.Core.List.{append_assoc, append-nil}
use libac.Prelude.{
  ℕ, suc, ◌+◌, ◌%◌, ◌^◌, ◌≤◌, ◌<◌, ◌≡◌, ◌⊎◌, refl, sym, ap, ◌∙◌, true, false, inl, inr, Option,
  none, some, List, [], ◌∷◌, ◌++◌, ltb, if◌then◌else◌, length, arith,
}
use libac.Prelude.Text.{codes}
use libac.Str.{Str}
use libac.Jsonw.{
  len, get, Jsonw, deeper, build_str, make_escaped_string, decimal, name_text, add_str, add_int,
  add_bool, add_null, add_str_or_null, add_real, add_array, add_object, json_end, end_array,
  end_object, end, init, set_indenter,
}
use libac.Jsonw.Buffer.{indents, build_str-Writes}
use libac.Jsonw.Closing.{separator, json_end-Closes}
use libac.Jsonw.Render.{
  Leaf, text, int, bool, null, str_or_null, real, Fields, no_fields, leaf_field, object_field,
  array_field, Items, no_items, leaf_item, object_item, and_then, write_leaf, write_fields,
  write_items, write_document, leaf_text, join, interior, block, field_lines, item_lines, document,
  FieldsFit, ItemsFit,
}

-- The lines, each with its comma and line feed
abbrev lines : List Str → Str
lines [] = []
lines (e ∷ es) = e ++ (codes ",\n" ++ lines es)

lines-join : (e : Str) (es : List Str) → lines (e ∷ es) ≡ join (e ∷ es) ++ codes ",\n"
unfolding join
lines-join e [] = refl
lines-join e (f ∷ es) =
    ap (λ t. e ++ (codes ",\n" ++ t)) (lines-join f es)
    ∙ sym (append_assoc e (codes ",\n" ++ join (f ∷ es)) (codes ",\n"))

separated : (d : ℕ) → separator (suc d) ≡ codes ",\n"
separated d = let inside : ltb 0 (suc d) ≡ true = ground arith in rw inside refl

-- The entry that an array or an object is, after the margin
leaf_entry :
    (name : Option Str) (value : Str)
    → name_text name ++ (value ++ codes ",\n") ≡ (name_text name ++ value) ++ codes ",\n"
leaf_entry name value = sym (append_assoc (name_text name) value (codes ",\n"))

module _ (ind : Str) (short : length ind ≤ 16) where
  -- A writer between two calls
  abbrev writer : Str → ℕ → ℕ → Jsonw
  writer s n d = record {
    str = s;
    allocated = n;
    depth = d;
    skip_tabs = false;
    indenter = some ind;
  }

  abbrev Reaches : Str → ℕ → Option Jsonw → Type 0
  Reaches s d run = (n : ℕ) × (run ≡ some (writer s n d)) × (length s < n)

  -- A call that adds a text and keeps the depth
  abbrev Adds : ℕ → Str → (Jsonw → Option Jsonw) → Type 0
  Adds d added call =
      (s : Str) (n : ℕ) → length s < n → Reaches (s ++ added) d (call (writer s n d))

  text_path : {s t : Str} (d : ℕ) (run : Option Jsonw) → s ≡ t → Reaches s d run → Reaches t d run
  text_path d run e (n, eq, room) =
      (n, eq ∙ ap (λ u. some (writer u n d)) e, omega (arith, room, ap length e))

  then-Adds :
      (d : ℕ) (a b : Str) (f g : Jsonw → Option Jsonw)
      → Adds d a f
      → Adds d b g
      → Adds d (a ++ b) (λ json. and_then (f json) g)
  then-Adds d a b f g fa gb s n room =
      let (m, run, room') = fa s n room in
      let (k, run', room'') = gb (s ++ a) m room' in
      text_path d _ (append_assoc s a b) (k, ap (λ r. and_then r g) run ∙ run', room'')

  build-Adds : (d : ℕ) (t : Str) → d < 2 ^ 8 → Adds d (indents d ind ++ t) (build_str t)
  build-Adds d t small s n room =
      build_str-Writes (writer s n d) t (record { room = room; depth_in = small; short = short })

  leaf-Adds :
      (d : ℕ) (name : Option Str) (value : Str) (call : Jsonw → Option Jsonw)
      → d < 2 ^ 8
      → call ≡ build_str (name_text name ++ (value ++ codes ",\n"))
      → Adds d ((indents d ind ++ (name_text name ++ value)) ++ codes ",\n") call
  leaf-Adds d name value call small e s n room =
      text_path d _
        (ap (λ t. s ++ t)
          (ap (λ t. indents d ind ++ t) (leaf_entry name value)
            ∙ sym (append_assoc (indents d ind) (name_text name ++ value) (codes ",\n"))))
        (let (m, run, room') =
            build-Adds d (name_text name ++ (value ++ codes ",\n")) small s n room in
          (m, ap (λ f. f (writer s n d)) e ∙ run, room'))

  string-Adds :
      (d : ℕ) (name : Option Str) (s : Str)
      → d < 2 ^ 8
      → Adds d
          ((indents d ind ++ (name_text name ++ ((b'"' ∷ make_escaped_string s) ++ codes "\"")))
            ++ codes ",\n")
          (add_str name s)
  unfolding add_str
  string-Adds d name s small =
      leaf-Adds d name ((b'"' ∷ make_escaped_string s) ++ codes "\"") _ small (
        ap (λ t. build_str (name_text name ++ t))
          (sym (append_assoc (b'"' ∷ make_escaped_string s) (codes "\"") (codes ",\n"))))

  write_leaf-Adds :
      (d : ℕ) (name : Option Str) (l : Leaf)
      → d < 2 ^ 8
      → Adds d
          ((indents d ind ++ (name_text name ++ leaf_text l)) ++ codes ",\n")
          (write_leaf name l)
  unfolding write_leaf leaf_text add_int add_bool add_null add_str_or_null add_real
  write_leaf-Adds d name (text s) small = string-Adds d name s small
  write_leaf-Adds d name (int n) small = leaf-Adds d name (decimal n) _ small refl
  write_leaf-Adds d name (bool b) small =
      leaf-Adds d name (if b then codes "true" else codes "false") _ small refl
  write_leaf-Adds d name null small = leaf-Adds d name (codes "null") _ small refl
  write_leaf-Adds d name (real shown dp) small = leaf-Adds d name (shown dp) _ small refl
  write_leaf-Adds d name (str_or_null none) small = leaf-Adds d name (codes "null") _ small refl
  write_leaf-Adds d name (str_or_null (some [])) small =
      leaf-Adds d name (codes "null") _ small refl
  write_leaf-Adds d name (str_or_null (some (c ∷ s))) small =
      let long : ltb 0 (length (c ∷ s)) ≡ true = ground arith in
      rw long (string-Adds d name (c ∷ s) small)

  -- The call that opens an array or an object
  opening-Reaches :
      (d : ℕ) (t s : Str) (n : ℕ)
      → suc d < 2 ^ 8
      → length s < n
      → Reaches (s ++ (indents d ind ++ t)) (suc d) (deeper (build_str t (writer s n d)))
  opening-Reaches d t s n small room =
      let (m, run, room') = build-Adds d t (omega arith) s n room in
      let level : (d + 1) % 2 ^ 8 ≡ suc d = omega arith in
      (m, ap deeper run ∙ ap (λ l. some (writer (s ++ (indents d ind ++ t)) m l)) level, room')

  -- The end of an array or an object behind its entries
  json_end-Reaches :
      (d : ℕ) (o c : ℕ) (es : List Str) (s : Str) (n : ℕ)
      → suc d < 2 ^ 8
      → (o ≡ b'[') ⊎ (o ≡ b'{')
      → length (s ++ (o ∷ (b'\n' ∷ lines es))) < n
      → Reaches
          (s ++ (block ind d o c es ++ separator d))
          d
          (json_end (c ∷ []) (writer (s ++ (o ∷ (b'\n' ∷ lines es))) n (suc d)))
  unfolding block interior
  json_end-Reaches d o c [] s n small either room =
      json_end-Closes (writer (s ++ (o ∷ codes "\n")) n (suc d)) (c ∷ []) true o s d
        (record { room = room; depth_in = small; short = short }) refl either refl
  json_end-Reaches d o c (e ∷ es) s n small either room =
      let entries : s ++ (o ∷ (b'\n' ∷ lines (e ∷ es)))
          ≡ (s ++ (o ∷ (b'\n' ∷ join (e ∷ es)))) ++ codes ",\n" =
        ap (λ t. s ++ (o ∷ (b'\n' ∷ t))) (lines-join e es)
        ∙ sym (append_assoc s (o ∷ (b'\n' ∷ join (e ∷ es))) (codes ",\n")) in
      text_path d _ (simp (append_assoc) refl) (
        json_end-Closes (writer (s ++ (o ∷ (b'\n' ∷ lines (e ∷ es)))) n (suc d)) (c ∷ []) false o
          (s ++ (o ∷ (b'\n' ∷ join (e ∷ es)))) d
          (record { room = room; depth_in = small; short = short }) refl either entries)

  -- An array or an object with its entries
  nested-Adds :
      (d o c : ℕ) (nt : Str) (es : List Str) (opening inner : Jsonw → Option Jsonw)
      → suc (suc d) < 2 ^ 8
      → (o ≡ b'[') ⊎ (o ≡ b'{')
      → opening ≡ (λ json. deeper (build_str (nt ++ (o ∷ codes "\n")) json))
      → Adds (suc (suc d)) (lines es) inner
      → Adds
          (suc d)
          ((indents (suc d) ind ++ (nt ++ block ind (suc d) o c es)) ++ codes ",\n")
          (λ json. and_then (and_then (opening json) inner) (json_end (c ∷ [])))
  nested-Adds d o c nt es opening inner small either e adds s n room =
      let start = s ++ (indents (suc d) ind ++ nt) in
      let (n1, run1, room1) = opening-Reaches (suc d) (nt ++ (o ∷ codes "\n")) s n small room in
      let (n2, run2, room2) = adds _ n1 room1 in
      let entries : (s ++ (indents (suc d) ind ++ (nt ++ (o ∷ codes "\n")))) ++ lines es
          ≡ start ++ (o ∷ (b'\n' ∷ lines es)) =
        simp (append_assoc) refl in
      let (n3, run3, room3) =
        json_end-Reaches (suc d) o c es start n2 small either
          (omega (arith, room2, ap length entries)) in
      text_path (suc d) _
        (simp (append_assoc) (
          ap (λ t. s ++ (indents (suc d) ind ++ (nt ++ (block ind (suc d) o c es ++ t))))
            (separated d)))
        (
          n3,
          (λ i. and_then (and_then (e i (writer s n (suc d))) inner) (json_end (c ∷ [])))
              ∙ (λ i. and_then (and_then (run1 i) inner) (json_end (c ∷ [])))
              ∙ (λ i. and_then (run2 i) (json_end (c ∷ [])))
              ∙ (λ i. json_end (c ∷ []) (writer (entries i) n2 (suc (suc d))))
              ∙ run3,
          room3,
        )

  nothing-Adds : (d : ℕ) → Adds d [] (λ json. some json)
  nothing-Adds d s n room = text_path d _ (sym (append-nil s)) (n, refl, room)

  fields_small : (d : ℕ) (fs : Fields) → FieldsFit d fs → d < 2 ^ 8
  unfolding FieldsFit
  fields_small d no_fields h = h
  fields_small d (leaf_field k l rest) h = fields_small d rest h
  fields_small d (object_field k fs rest) (h, h') = fields_small d rest h'
  fields_small d (array_field k xs rest) (h, h') = fields_small d rest h'

  items_small : (d : ℕ) (xs : Items) → ItemsFit d xs → d < 2 ^ 8
  unfolding FieldsFit ItemsFit
  items_small d no_items h = h
  items_small d (leaf_item l rest) h = items_small d rest h
  items_small d (object_item fs rest) (h, h') = items_small d rest h'

  entry-Adds :
      (d : ℕ) (e : Str) (es : List Str) (f g : Jsonw → Option Jsonw)
      → Adds d (e ++ codes ",\n") f
      → Adds d (lines es) g
      → Adds d (lines (e ∷ es)) (λ json. and_then (f json) g)
  entry-Adds d e es f g fa ga s n room =
      text_path d _ (ap (λ t. s ++ t) (append_assoc e (codes ",\n") (lines es)))
        (then-Adds d (e ++ codes ",\n") (lines es) f g fa ga s n room)

  -- The calls for the entries at a depth add their lines.
  mutual
    unfolding FieldsFit ItemsFit write_fields write_items field_lines item_lines add_object
        add_array end_object end_array

    pub write_fields-Adds :
        (d : ℕ) (fs : Fields)
        → FieldsFit (suc d) fs
        → Adds (suc d) (lines (field_lines ind (suc d) fs)) (write_fields fs)
    write_fields-Adds d no_fields fit = nothing-Adds (suc d)
    write_fields-Adds d (leaf_field k l rest) fit =
        entry-Adds (suc d) _ _ (write_leaf (some k) l) (write_fields rest)
          (write_leaf-Adds (suc d) (some k) l (fields_small (suc d) rest fit))
          (write_fields-Adds d rest fit)
    write_fields-Adds d (object_field k fs rest) (inner, fit) =
        entry-Adds (suc d) _ _
          (λ json. and_then (and_then (add_object (some k) json) (write_fields fs)) end_object)
          (write_fields rest)
          (nested-Adds d b'{' b'}' (name_text (some k)) _ (add_object (some k)) (write_fields fs)
            (fields_small (suc (suc d)) fs inner) (inr refl) refl
            (write_fields-Adds (suc d) fs inner))
          (write_fields-Adds d rest fit)
    write_fields-Adds d (array_field k xs rest) (inner, fit) =
        entry-Adds (suc d) _ _
          (λ json. and_then (and_then (add_array k json) (write_items xs)) end_array)
          (write_fields rest)
          (nested-Adds d b'[' b']' (name_text (some k)) _ (add_array k) (write_items xs)
            (items_small (suc (suc d)) xs inner) (inl refl) refl
            (write_items-Adds (suc d) xs inner))
          (write_fields-Adds d rest fit)

    pub write_items-Adds :
        (d : ℕ) (xs : Items)
        → ItemsFit (suc d) xs
        → Adds (suc d) (lines (item_lines ind (suc d) xs)) (write_items xs)
    write_items-Adds d no_items fit = nothing-Adds (suc d)
    write_items-Adds d (leaf_item l rest) fit =
        entry-Adds (suc d) _ _ (write_leaf none l) (write_items rest)
          (write_leaf-Adds (suc d) none l (items_small (suc d) rest fit))
          (write_items-Adds d rest fit)
    write_items-Adds d (object_item fs rest) (inner, fit) =
        entry-Adds (suc d) _ _
          (λ json. and_then (and_then (add_object none json) (write_fields fs)) end_object)
          (write_items rest)
          (nested-Adds d b'{' b'}' [] _ (add_object none) (write_fields fs)
            (fields_small (suc (suc d)) fs inner) (inr refl) refl
            (write_fields-Adds (suc d) fs inner))
          (write_items-Adds d rest fit)

-- The calls for a document, with an indenter of at most 16 bytes and at most 255 levels, all succeed
-- and leave the document's text in the buffer, which holds it and its NUL. The text is the one that a
-- printer of JSON documents gives: an entry on each line, indented by its depth, a comma behind every
-- entry but the last of its object or array, and a pair of brackets for an empty one.
pub write_document_lem :
    (ind : Str) (fs : Fields)
    → length ind ≤ 16
    → FieldsFit 1 fs
    → (json : Jsonw) × (write_document ind fs ≡ some json)
      × (get json ≡ document ind fs)
      × (len json < json.allocated)
unfolding write_document init set_indenter end document
write_document_lem ind fs short fit =
    let (n, run, room) = write_fields-Adds ind short 0 fs fit (codes "{\n") 4096 (omega arith) in
    let (m, run', room') =
      json_end-Reaches ind short 0 b'{' b'}' (field_lines ind 1 fs) [] n (omega arith) (inr refl)
        room in
    let shown = append-nil (document ind fs) in
    (
      writer ind short (document ind fs ++ []) m 0,
      ap (λ r. and_then r end) run ∙ run',
      shown,
      room',
    )
