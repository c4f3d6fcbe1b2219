-- ===== src/Jsonw/Parse/Steps.antt =====
-- The parser on the tokens of a document, with enough fuel.
use mathlib.Core.List.{append_assoc}
use libac.Prelude.{
  ℕ, zero, suc, ◌+◌, ◌≤◌, ◌≡◌, refl, ap, ◌∙◌, Bool, true, false, none, some, List, [], ◌∷◌, ◌++◌,
  length, length-append, arith,
}
use libac.Str.{Str}
use libac.Jsonw.Render.{
  Fields, no_fields, leaf_field, object_field, array_field, Items, no_items, leaf_item, object_item,
}
use libac.Jsonw.Parse.{
  Value, string, object, array, Members, no_members, member, Elements, no_elements, element, Token,
  brace_open, brace_close, bracket_open, bracket_close, colon, scalar, key_at, item_at, after_brace,
  after_bracket, parse_value, parse_members, parse_elements,
}
use libac.Jsonw.Parse.Tree.{
  leaf_value, members_of, elements_of, comma_unless, comma_unless-append, length-comma_unless,
  field_tokens, item_tokens,
}

abbrev pred : ℕ → ℕ
pred zero = zero
pred (suc n) = n

le_pred : (n f : ℕ) → suc n ≤ f → n ≤ pred f
le_pred n zero h = absurd (omega arith)
le_pred n (suc f) h = omega arith

-- A member or element, from its value and what is behind it
member_step :
    (f : ℕ) (first : Bool) (k : Str) (ts vs ws : List Token) (v : Value) (ms : Members)
    → 1 ≤ f
    → parse_value (pred f) ts ≡ some (v, vs)
    → parse_members (pred f) false vs ≡ some (ms, ws)
    → parse_members f first (comma_unless first (scalar (string k) ∷ (colon ∷ ts)))
      ≡ some (member k v ms, ws)
unfolding parse_members key_at after_brace
member_step zero first k ts vs ws v ms h ev em = absurd (omega arith)
member_step (suc f) true k ts vs ws v ms h ev em = rw (ev, em) refl
member_step (suc f) false k ts vs ws v ms h ev em = rw (ev, em) refl

element_step :
    (f : ℕ) (first : Bool) (ts vs ws : List Token) (v : Value) (es : Elements)
    → 1 ≤ f
    → after_bracket ts ≡ none
    → parse_value (pred f) ts ≡ some (v, vs)
    → parse_elements (pred f) false vs ≡ some (es, ws)
    → parse_elements f first (comma_unless first ts) ≡ some (element v es, ws)
unfolding parse_elements item_at after_bracket
element_step zero first ts vs ws v es h goes_on ev ee = absurd (omega arith)
element_step (suc f) true ts vs ws v es h goes_on ev ee = rw (parse_elements, goes_on, ev, ee) refl
element_step (suc f) false ts vs ws v es h goes_on ev ee = rw (ev, ee) refl

scalar_value :
    (f : ℕ) (v : Value) (us : List Token) → 1 ≤ f → parse_value f (scalar v ∷ us) ≡ some (v, us)
unfolding parse_value
scalar_value zero v us h = absurd (omega arith)
scalar_value (suc f) v us h = refl

object_value :
    (f : ℕ) (ts us : List Token) (ms : Members)
    → 1 ≤ f
    → parse_members (pred f) true ts ≡ some (ms, us)
    → parse_value f (brace_open ∷ ts) ≡ some (object ms, us)
unfolding parse_value
object_value zero ts us ms h e = absurd (omega arith)
object_value (suc f) ts us ms h e = rw (e) refl

array_value :
    (f : ℕ) (ts us : List Token) (es : Elements)
    → 1 ≤ f
    → parse_elements (pred f) true ts ≡ some (es, us)
    → parse_value f (bracket_open ∷ ts) ≡ some (array es, us)
unfolding parse_value
array_value zero ts us es h e = absurd (omega arith)
array_value (suc f) ts us es h e = rw (e) refl

members_end :
    (f : ℕ) (first : Bool) (us : List Token)
    → 1 ≤ f
    → parse_members f first (brace_close ∷ us) ≡ some (no_members, us)
unfolding parse_members after_brace
members_end zero first us h = absurd (omega arith)
members_end (suc f) first us h = refl

elements_end :
    (f : ℕ) (first : Bool) (us : List Token)
    → 1 ≤ f
    → parse_elements f first (bracket_close ∷ us) ≡ some (no_elements, us)
unfolding parse_elements after_bracket
elements_end zero first us h = absurd (omega arith)
elements_end (suc f) first us h = refl

-- The tokens of a nested value, with more tokens behind
nested_tokens :
    (first : Bool) (hs inner behind us : List Token)
    → comma_unless first (hs ++ (inner ++ behind)) ++ us
      ≡ comma_unless first (hs ++ (inner ++ (behind ++ us)))
nested_tokens first hs inner behind us =
    comma_unless-append first (hs ++ (inner ++ behind)) us
    ∙ ap (comma_unless first) (append_assoc hs (inner ++ behind) us)
    ∙ ap (λ l. comma_unless first (hs ++ l)) (append_assoc inner behind us)

-- A nested value leaves enough fuel for itself and for what is behind it.
nested_fuel :
    (f : ℕ) (first : Bool) (h : Token) (hs inner behind : List Token)
    → length (comma_unless first (h ∷ (hs ++ (inner ++ behind)))) ≤ f
    → (suc (length hs + (length inner + length behind)) ≤ f)
nested_fuel f first h hs inner behind le = omega (
  arith,
  length-comma_unless first (h ∷ (hs ++ (inner ++ behind))),
  length-append hs (inner ++ behind),
  length-append inner behind,
)

field_tokens_some : (first : Bool) (fs : Fields) → 1 ≤ length (field_tokens first fs)
unfolding field_tokens
field_tokens_some first no_fields = omega arith
field_tokens_some true (leaf_field k l rest) = omega arith
field_tokens_some false (leaf_field k l rest) = omega arith
field_tokens_some true (object_field k fs rest) = omega arith
field_tokens_some false (object_field k fs rest) = omega arith
field_tokens_some true (array_field k xs rest) = omega arith
field_tokens_some false (array_field k xs rest) = omega arith

item_tokens_some : (first : Bool) (xs : Items) → 1 ≤ length (item_tokens first xs)
unfolding item_tokens
item_tokens_some first no_items = omega arith
item_tokens_some true (leaf_item l rest) = omega arith
item_tokens_some false (leaf_item l rest) = omega arith
item_tokens_some true (object_item fs rest) = omega arith
item_tokens_some false (object_item fs rest) = omega arith

mutual
  unfolding field_tokens item_tokens members_of elements_of after_bracket

  pub parse_members-tokens :
      (f : ℕ) (first : Bool) (fs : Fields) (us : List Token)
      → length (field_tokens first fs) ≤ f
      → parse_members f first (field_tokens first fs ++ us) ≡ some (members_of fs, us)
  parse_members-tokens f first no_fields us h = members_end f first us (omega arith)
  parse_members-tokens f first (leaf_field k l rest) us h =
      let behind : List Token = field_tokens false rest in
      let le =
        nested_fuel f first (scalar (string k)) (colon ∷ (scalar (leaf_value l) ∷ [])) [] behind
          h in
      let le1 = le_pred (suc (suc (length behind))) f (omega arith) in
      ap (parse_members f first) (
        nested_tokens first (scalar (string k) ∷ (colon ∷ (scalar (leaf_value l) ∷ []))) [] behind
          us)
      ∙ member_step f first k (scalar (leaf_value l) ∷ (behind ++ us)) (behind ++ us) us
          (leaf_value l) (members_of rest) (omega arith)
          (scalar_value (pred f) (leaf_value l) (behind ++ us) (omega arith))
          (parse_members-tokens (pred f) false rest us (omega arith))
  parse_members-tokens f first (object_field k fs rest) us h =
      let inner : List Token = field_tokens true fs in
      let behind : List Token = field_tokens false rest in
      let le = nested_fuel f first (scalar (string k)) (colon ∷ (brace_open ∷ [])) inner behind h in
      let le1 = le_pred (suc (suc (length inner + length behind))) f (omega arith) in
      let le2 = le_pred (suc (length inner + length behind)) (pred f) (omega arith) in
      ap (parse_members f first)
        (nested_tokens first (scalar (string k) ∷ (colon ∷ (brace_open ∷ []))) inner behind us)
      ∙ member_step f first k (brace_open ∷ (inner ++ (behind ++ us))) (behind ++ us) us
          (object (members_of fs)) (members_of rest) (omega arith)
          (object_value (pred f) (inner ++ (behind ++ us)) (behind ++ us) (members_of fs)
            (omega arith)
            (parse_members-tokens (pred (pred f)) true fs (behind ++ us) (omega arith)))
          (parse_members-tokens (pred f) false rest us (omega arith))
  parse_members-tokens f first (array_field k xs rest) us h =
      let inner : List Token = item_tokens true xs in
      let behind : List Token = field_tokens false rest in
      let le =
        nested_fuel f first (scalar (string k)) (colon ∷ (bracket_open ∷ [])) inner behind h in
      let le1 = le_pred (suc (suc (length inner + length behind))) f (omega arith) in
      let le2 = le_pred (suc (length inner + length behind)) (pred f) (omega arith) in
      ap (parse_members f first)
        (nested_tokens first (scalar (string k) ∷ (colon ∷ (bracket_open ∷ []))) inner behind us)
      ∙ member_step f first k (bracket_open ∷ (inner ++ (behind ++ us))) (behind ++ us) us
          (array (elements_of xs)) (members_of rest) (omega arith)
          (array_value (pred f) (inner ++ (behind ++ us)) (behind ++ us) (elements_of xs)
            (omega arith)
            (parse_elements-tokens (pred (pred f)) true xs (behind ++ us) (omega arith)))
          (parse_members-tokens (pred f) false rest us (omega arith))

  pub parse_elements-tokens :
      (f : ℕ) (first : Bool) (xs : Items) (us : List Token)
      → length (item_tokens first xs) ≤ f
      → parse_elements f first (item_tokens first xs ++ us) ≡ some (elements_of xs, us)
  parse_elements-tokens f first no_items us h = elements_end f first us (omega arith)
  parse_elements-tokens f first (leaf_item l rest) us h =
      let behind : List Token = item_tokens false rest in
      let le = nested_fuel f first (scalar (leaf_value l)) [] [] behind h in
      let le1 = le_pred (length behind) f (omega arith) in
      ap (parse_elements f first) (nested_tokens first (scalar (leaf_value l) ∷ []) [] behind us)
      ∙ element_step f first (scalar (leaf_value l) ∷ (behind ++ us)) (behind ++ us) us
          (leaf_value l) (elements_of rest) (omega arith) refl
          (scalar_value (pred f) (leaf_value l) (behind ++ us)
            (omega (arith, item_tokens_some false rest)))
          (parse_elements-tokens (pred f) false rest us (omega arith))
  parse_elements-tokens f first (object_item fs rest) us h =
      let inner : List Token = field_tokens true fs in
      let behind : List Token = item_tokens false rest in
      let le = nested_fuel f first brace_open [] inner behind h in
      let le1 = le_pred (length inner + length behind) f (omega arith) in
      let some_behind = item_tokens_some false rest in
      let le2 = le_pred (length inner) (pred f) (omega arith) in
      ap (parse_elements f first) (nested_tokens first (brace_open ∷ []) inner behind us)
      ∙ element_step f first (brace_open ∷ (inner ++ (behind ++ us))) (behind ++ us) us
          (object (members_of fs)) (elements_of rest) (omega arith) refl
          (object_value (pred f) (inner ++ (behind ++ us)) (behind ++ us) (members_of fs)
            (omega (arith, item_tokens_some false rest))
            (parse_members-tokens (pred (pred f)) true fs (behind ++ us) le2))
          (parse_elements-tokens (pred f) false rest us (omega arith))
