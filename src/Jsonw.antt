-- ===== src/Jsonw.antt =====
-- src/ac_jsonw.c: a JSON writer over a text buffer that grows by 4096 bytes.
--
-- `str` is the text in the buffer up to the NUL, so `json->len` is its length; `allocated` is the size
-- of the allocation. `none` is a write that the buffer does not hold, which for the indentation means
-- that `snprintf` cuts it off, and a read outside it. `depth` is a `u8`. What `vasprintf` makes of a
-- double is an argument.
pub mod Escape
pub mod Buffer
pub mod Closing
pub mod Render
pub mod Parse
mod Tests
use libac.Prelude.{
  ℕ, zero, suc, ◌+◌, ◌-◌, ◌*◌, ◌/◌, ◌%◌, ◌^◌, ◌<◌, Bool, true, false, ◌||◌, ◌&&◌, Option, none,
  some, List, [], ◌∷◌, ◌++◌, leb, ltb, ◌==◌, if◌then◌else◌, length, get_or, take, replicate,
}
use libac.Prelude.Int.{ℤ, pos, negsuc}
use libac.Prelude.Text.{codes}
use libac.Str.{Str}

-- `ALLOC_SZ`
abbrev pub alloc_sz : ℕ
alloc_sz = 4096

-- `ac_jsonw_t`
pub record Jsonw : Type 0 where
  pub str : Str
  pub allocated : ℕ
  pub depth : ℕ
  pub skip_tabs : Bool
  pub indenter : Option Str

-- `const char *indenter = !json->indenter ? JSON_INDENT : json->indenter`
abbrev pub indent_of : Jsonw → Str
indent_of json = elim json.indenter [ none ↦ codes "    " | some s ↦ s ]

-- `snprintf(json->str + json->len, json->allocated - json->len, "%s", indenter)`, `n` times
unfoldable pub add_indents : ℕ → Str → Jsonw → Option Jsonw
add_indents zero ind json = some json
add_indents (suc n) ind json =
    let rest = add_indents n ind (record json { str = json.str ++ ind }) in
    if ltb (length json.str + length ind) json.allocated then rest else none

-- `while (json->len + len >= json->allocated)`; every round adds 4096.
unfoldable pub grow : ℕ → ℕ → ℕ → Option ℕ
grow zero need allocated = none
grow (suc f) need allocated =
    let rest = grow f need (allocated + alloc_sz) in
    if leb allocated need then rest else some allocated

-- `memcpy(json->str + json->len, buf, len + 1)`
unfoldable pub append_text : Str → Jsonw → Option Jsonw
append_text buf json =
    if leb (length json.str + length buf + 1) json.allocated
    then some (record json { str = json.str ++ buf })
    else none

-- The first test of `json_build_str`, and the loop that indents
unfoldable pub indent : Jsonw → Option Jsonw
unfolding add_indents
indent json =
    if json.skip_tabs
    then some json
    else if leb json.allocated (length json.str + json.depth * length (indent_of json))
    then add_indents json.depth (indent_of json)
        (record json { allocated = json.allocated + alloc_sz })
    else add_indents json.depth (indent_of json) json

-- `json_build_str`, of the formatted text
unfoldable pub build_str : Str → Jsonw → Option Jsonw
unfolding indent grow append_text
build_str buf json = elim (indent json) [
  | none ↦ none
  | some j ↦ elim (grow (length j.str + length buf + 1) (length j.str + length buf) j.allocated) [
    | none ↦ none
    | some n ↦ append_text buf (record j { allocated = n })
  ]
]

-- `ac_jsonw_init`
unfoldable pub init : Jsonw
init = record {
  str = codes "{\n";
  allocated = alloc_sz;
  depth = 1;
  skip_tabs = false;
  indenter = none;
}

-- `ac_jsonw_indent_sz`
unfoldable pub indent_sz : ℤ → Jsonw → Jsonw
indent_sz (pos size) json =
    if ltb size 1 || ltb 16 size
    then json
    else record json { indenter = some (replicate size b' ') }
indent_sz (negsuc n) json = json

-- `ac_jsonw_set_indenter`
unfoldable pub set_indenter : Str → Jsonw → Jsonw
set_indenter s json = record json { indenter = some s }

-- A hexadecimal digit as `%x` writes it
unfoldable pub hex_digit : ℕ → ℕ
hex_digit d = if ltb d 10 then b'0' + d else b'a' + d - 10

-- What `make_escaped_string` writes for a byte. `char` is signed: from 0x80 on `c` is negative, `%04x`
-- gives eight digits from `ffff` on, and `snprintf` cuts off the last four.
unfoldable pub escape_char : ℕ → Str
unfolding hex_digit
escape_char c =
    if leb 128 c
    then codes "\\uffff"
    else if ltb c 32
        && (if (c == 8) || (c == 12) || (c == 9) || (c == 10) || (c == 13) then false else true)
    then codes "\\u00" ++ (hex_digit (c / 16) ∷ hex_digit (c % 16) ∷ [])
    else if c == b'"'
    then codes "\\\""
    else if c == b'\\'
    then codes "\\\\"
    else if c == 8
    then codes "\\b"
    else if c == 12
    then codes "\\f"
    else if c == 10
    then codes "\\n"
    else if c == 13
    then codes "\\r"
    else if c == 9
    then codes "\\t"
    else c ∷ []

-- `make_escaped_string`
unfoldable pub make_escaped_string : Str → Str
unfolding escape_char
make_escaped_string [] = []
make_escaped_string (c ∷ str) = escape_char c ++ make_escaped_string str

-- `"\"%s\": "`, if there is a name
abbrev pub name_text : Option Str → Str
name_text none = []
name_text (some name) = (b'"' ∷ name) ++ codes "\": "

-- `ac_jsonw_add_str`
unfoldable pub add_str : Option Str → Str → Jsonw → Option Jsonw
unfolding build_str
add_str name value =
    build_str (name_text name ++ ((b'"' ∷ make_escaped_string value) ++ codes "\",\n"))

-- The decimal digits of a number, the last one first
unfoldable pub digits : ℕ → ℕ → Str
digits zero n = []
digits (suc f) n =
    let rest = digits f (n / 10) in (b'0' + n % 10) ∷ (if n / 10 == 0 then [] else rest)

abbrev pub reversed : Str → Str → Str
reversed [] out = out
reversed (c ∷ s) out = reversed s (c ∷ out)

-- `PRId64`: a 64-bit number has at most 19 digits.
unfoldable pub decimal : ℤ → Str
unfolding digits
decimal (pos n) = reversed (digits 19 n) []
decimal (negsuc n) = b'-' ∷ reversed (digits 19 (n + 1)) []

-- `ac_jsonw_add_int`
unfoldable pub add_int : Option Str → ℤ → Jsonw → Option Jsonw
unfolding build_str decimal
add_int name value = build_str (name_text name ++ (decimal value ++ codes ",\n"))

-- `ac_jsonw_add_real`; `shown` is what `%f`, or `%.*f` with the decimal places given, makes of the
-- value.
unfoldable pub add_real : Option Str → (ℤ → Str) → ℤ → Jsonw → Option Jsonw
unfolding build_str
add_real name shown dp = build_str (name_text name ++ (shown dp ++ codes ",\n"))

-- `ac_jsonw_add_bool`
unfoldable pub add_bool : Option Str → Bool → Jsonw → Option Jsonw
unfolding build_str
add_bool name value =
    build_str (name_text name ++ ((if value then codes "true" else codes "false") ++ codes ",\n"))

-- `ac_jsonw_add_null`
unfoldable pub add_null : Option Str → Jsonw → Option Jsonw
unfolding build_str
add_null name = build_str (name_text name ++ codes "null,\n")

-- `ac_jsonw_add_str_or_null`; the value may be NULL.
unfoldable pub add_str_or_null : Option Str → Option Str → Jsonw → Option Jsonw
unfolding add_str add_null
add_str_or_null name none = add_null name
add_str_or_null name (some value) =
    if ltb 0 (length value) then add_str name value else add_null name

abbrev deeper : Option Jsonw → Option Jsonw
deeper run = elim run [
  | none ↦ none
  | some json ↦ some (record json { depth = (json.depth + 1) % 2 ^ 8 })
]

-- `ac_jsonw_add_array`
unfoldable pub add_array : Str → Jsonw → Option Jsonw
unfolding build_str
add_array name json = deeper (build_str (name_text (some name) ++ codes "[\n") json)

-- `ac_jsonw_add_object`
unfoldable pub add_object : Option Str → Jsonw → Option Jsonw
unfolding build_str
add_object name json = deeper (build_str (name_text name ++ codes "{\n") json)

-- `__json_end` from the write of the NUL on
unfoldable pub close : Str → Bool → Jsonw → Option Jsonw
unfolding build_str
close closer empty json =
    let j : Jsonw = record json { depth = (json.depth + 255) % 2 ^ 8; skip_tabs = true } in
    elim (build_str (if empty then [] else codes "\n") j) [
      | none ↦ none
      | some j1 ↦
          let j2 : Jsonw = record j1 { skip_tabs = if empty then true else false } in
          elim (build_str (closer ++ (if ltb 0 j2.depth then codes ",\n" else [])) j2) [
            | none ↦ none
            | some j3 ↦ some (record j3 { skip_tabs = false })
          ]
    ]

-- `__json_end`
unfoldable pub json_end : Str → Jsonw → Option Jsonw
unfolding close
json_end closer json =
    let n = length json.str in
    let c = get_or json.str (n - 2) 0 in
    if ltb n 2
    then none
    else if (c == b'[') || (c == b'{')
    then close closer true (record json { str = take (n - 1) json.str })
    else close closer false (record json { str = take (n - 2) json.str })

-- `ac_jsonw_end_array`
unfoldable pub end_array : Jsonw → Option Jsonw
unfolding json_end
end_array json = json_end (codes "]") json

-- `ac_jsonw_end_object`
unfoldable pub end_object : Jsonw → Option Jsonw
unfolding json_end
end_object json = json_end (codes "}") json

-- `ac_jsonw_end`
unfoldable pub end : Jsonw → Option Jsonw
unfolding json_end
end json = json_end (codes "}") (record json { depth = 1 })

-- `ac_jsonw_len`; `json->len` is the length of the text.
abbrev pub len : Jsonw → ℕ
len json = length json.str

-- `ac_jsonw_get`
abbrev pub get : Jsonw → Str
get json = json.str
