-- ===== src/Jsonw/Tests.antt =====
-- Runs of the JSON writer.
use libac.Prelude.{◌≡◌, refl, ◌<◌, none, some, true, arith}
use libac.Prelude.Int.{pos, negsuc}
use libac.Prelude.Text.{codes}
use libac.Str.{Str, same_str}
use libac.Jsonw.{len, get, Jsonw}
use libac.Jsonw.Escape.{read}
use libac.Jsonw.Render.{
  Fields, leaf_field, object_field, array_field, no_fields, leaf_item, object_item, no_items, text,
  int, bool, null, str_or_null, real, write_document, document, FieldsFit, ItemsFit,
}
use libac.Jsonw.Parse.{
  number, truth, nothing, string, object, array, no_members, member, no_elements, element, lex, add,
  one, as_string, bare_value, punctuation, is_bare, digits_value, signed, all_digits, has_point,
  is_fraction, word, real as real_value, key_at, item_at, after_brace, after_bracket, parse_value,
  parse,
}
use libac.Jsonw.Parse.Tree.{members_of, FieldsReadable, ItemsReadable}
use libac.Jsonw.Parse.RoundTrip.{parse-write_document}
use libac.Jsonw.Render.Laws.{write_document_lem}

abbrev some_fields : Fields
some_fields = leaf_field (codes "id") (int (pos 42)) (
    object_field (codes "o") (leaf_field (codes "s") (text (codes "a\"b")) no_fields) (
      array_field (codes "xs")
        (leaf_item null (
          object_item (leaf_field (codes "b") (bool true) no_fields)
            (leaf_item (str_or_null none) no_items)))
        (array_field (codes "empty") no_items
          (leaf_field (codes "pi") (real (λ dp. codes "-3.14") (pos 2)) no_fields))))

some_fields-FieldsFit : FieldsFit 1 some_fields
unfolding FieldsFit ItemsFit
some_fields-FieldsFit = omega arith

write_document_lem_example :
    (json : Jsonw) × (write_document (codes "  ") some_fields ≡ some json)
    × (get json ≡ document (codes "  ") some_fields)
    × (len json < json.allocated)
write_document_lem_example =
    write_document_lem (codes "  ") some_fields (omega arith) some_fields-FieldsFit

-- The reader on a text with other white space than the writer's
abbrev sample : Str
sample = codes "{ \"a\":[10,0.50,-2, true ,\"x\\n\"],\n\"b\" : null}"

sample_read :
    parse sample
    ≡ some (
        object (
          member
            (codes "a")
            (array (
              element (number (pos 10)) (
                element (real_value (codes "0.50")) (
                  element
                    (number (negsuc 1))
                    (element (truth true) (element (string (codes "x\n")) no_elements))))))
            (member (codes "b") nothing no_members)))
unfolding parse lex parse_value add one as_string bare_value punctuation is_bare digits_value signed
    all_digits has_point is_fraction word same_str key_at item_at after_brace after_bracket read
sample_read = refl

no_trailing_comma : parse (codes "{\"a\": 1,}") ≡ none
unfolding parse lex parse_value add one as_string bare_value punctuation is_bare digits_value signed
    all_digits has_point is_fraction word same_str key_at item_at after_brace after_bracket read
no_trailing_comma = refl

some_fields-FieldsReadable : FieldsReadable some_fields
unfolding FieldsReadable ItemsReadable is_fraction has_point all_digits
some_fields-FieldsReadable = (
  refl,
  omega arith,
  (
    refl,
    (refl, (omega arith, (omega arith, (omega arith, tt))), tt),
    (refl, (tt, ((refl, tt, tt), (tt, tt))), (refl, tt, (refl, refl, tt))),
  ),
)

parse-write_document_example :
    (json : Jsonw) × (write_document (codes "  ") some_fields ≡ some json)
    × (parse (get json) ≡ some (object (members_of some_fields)))
parse-write_document_example =
    parse-write_document (codes "  ") some_fields (omega arith) refl some_fields-FieldsFit
      some_fields-FieldsReadable
