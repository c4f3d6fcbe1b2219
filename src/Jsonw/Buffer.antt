-- ===== src/Jsonw/Buffer.antt =====
-- `json_build_str`: the indentation, the growth of the buffer, and the text.
use mathlib.Core.List.{append_assoc, append-nil}
use native.Mathlib.Nat.{mul-le-mul, le_trans}
use libac.Prelude.{
  ℕ, zero, suc, ◌+◌, ◌-◌, ◌*◌, ◌^◌, ◌≤◌, ◌<◌, ◌≡◌, refl, sym, ap, ◌∙◌, true, Bool-cases, inl, inr,
  Option, some, [], ◌++◌, leb, ltb, if◌then◌else◌, if_true, if_false, length, length-append, arith,
}
use libac.Str.{Str}
use libac.Jsonw.{Jsonw, alloc_sz, indent_of, add_indents, grow, append_text, indent, build_str}

-- The indentation at a depth
unfoldable pub indents : ℕ → Str → Str
indents zero ind = []
indents (suc n) ind = ind ++ indents n ind

length-indents : (n : ℕ) (ind : Str) → length (indents n ind) ≡ n * length ind
unfolding indents
length-indents zero ind = omega arith
length-indents (suc n) ind = grind (arith, length-indents n ind, length-append ind (indents n ind))

-- The text and its NUL are inside the buffer, the depth is a `u8` and the indenter is short.
pub record IsWriter (json : Jsonw) : Type 0 where
  pub room : length json.str < json.allocated
  pub depth_in : json.depth < 2 ^ 8
  pub short : length (indent_of json) ≤ 16

-- The writer with more text, in a buffer of a given size.
abbrev pub with_text : Jsonw → Str → ℕ → Jsonw
with_text json text n = record json { str = json.str ++ text; allocated = n }

-- A run that adds a text and changes nothing else but the size of the buffer, which holds it.
abbrev pub Writes : Jsonw → Str → Option Jsonw → Type 0
Writes json text run =
    (n : ℕ) × (run ≡ some (with_text json text n)) × (length (json.str ++ text) < n)

next_indent : (n k : ℕ) → suc n * k ≡ k + n * k
next_indent n k = grind arith

add_indents-indents :
    (n : ℕ) (ind : Str) (json : Jsonw)
    → length json.str + n * length ind < json.allocated
    → add_indents n ind json ≡ some (with_text json (indents n ind) json.allocated)
unfolding add_indents indents
add_indents-indents zero ind json room =
    ap (λ s. some (record json { str = s })) (sym (append-nil json.str))
add_indents-indents (suc n) ind json room =
    let more = next_indent n (length ind) in
    let fits : ltb (length json.str + length ind) json.allocated ≡ true =
      ground (arith, next_indent n (length ind)) in
    rw fits (
      add_indents-indents n ind (record json { str = json.str ++ ind })
        (omega (arith, next_indent n (length ind), length-append json.str ind))
      ∙ ap (λ s. some (record json { str = s })) (append_assoc json.str ind (indents n ind)))

grow-grown :
    (f need allocated : ℕ)
    → 0 < f
    → need < allocated + (f - 1) * alloc_sz
    → (n : ℕ) × (grow f need allocated ≡ some n) × (need < n)
unfolding grow
grow-grown zero need allocated some_left h = absurd (omega arith)
grow-grown (suc f) need allocated some_left h = elim (Bool-cases (leb allocated need)) [
  | inl short ↦
      let le : allocated ≤ need = ground arith in
      let (n, run, more) = grow-grown f need (allocated + alloc_sz) (omega arith) (omega arith) in
      (n, rw short run, more)
  | inr enough ↦ (allocated, rw enough refl, ground arith)
]

-- What the first part of `json_build_str` adds
abbrev pub margin : Jsonw → Str
margin json = if json.skip_tabs then [] else indents json.depth (indent_of json)

-- The most that an indentation takes
length-margin-le : (json : Jsonw) → IsWriter json → json.depth * length (indent_of json) ≤ alloc_sz
length-margin-le json v =
    le_trans
      (mul-le-mul {n₁ = json.depth} {m₁ = length (indent_of json)} {n₂ = 255} {m₂ = 16}
        (omega (arith, v.depth_in)) v.short)
      (omega arith)

-- The two sizes of the buffer that the indentation starts with
indented :
    (json : Jsonw) (n : ℕ)
    → length json.str + json.depth * length (indent_of json) < n
    → (add_indents json.depth (indent_of json) (record json { allocated = n })
        ≡ some (with_text json (indents json.depth (indent_of json)) n))
      × (length (json.str ++ indents json.depth (indent_of json)) < n)
indented json n room = (
  add_indents-indents json.depth (indent_of json) (record json { allocated = n }) room,
  omega (
    arith,
    length-append json.str (indents json.depth (indent_of json)),
    length-indents json.depth (indent_of json),
  ),
)

indent-margin :
    (json : Jsonw)
    → IsWriter json
    → (n : ℕ) × (indent json ≡ some (with_text json (margin json) n))
      × (length (json.str ++ margin json) < n)
unfolding indent
indent-margin json v = elim (Bool-cases json.skip_tabs) [
  | inl skip ↦
      let none_added : json.str ++ margin json ≡ json.str =
        ap (λ s. json.str ++ s) (if_true _ _ skip) ∙ append-nil json.str in
      (
        json.allocated,
        if_true _ _ skip ∙ ap (λ s. some (record json { str = s })) (sym none_added),
        omega (arith, v.room, ap length none_added),
      )
  | inr tabs ↦
      let k = json.depth * length (indent_of json) in
      let same : indents json.depth (indent_of json) ≡ margin json = sym (if_false _ _ tabs) in
      elim (Bool-cases (leb json.allocated (length json.str + k))) [
        | inl short ↦
            let (run, fits) =
              indented json (json.allocated + alloc_sz)
                (omega (arith, v.room, length-margin-le json v)) in
            (
              json.allocated + alloc_sz,
              if_false _ _ tabs
                  ∙ if_true _ _ short
                  ∙ run
                  ∙ ap (λ s. some (with_text json s (json.allocated + alloc_sz))) same,
              omega (arith, fits, ap (λ s. length (json.str ++ s)) same),
            )
        | inr enough ↦
            let (run, fits) = indented json json.allocated (ground arith) in
            (
              json.allocated,
              if_false _ _ tabs
                  ∙ if_false _ _ enough
                  ∙ run
                  ∙ ap (λ s. some (with_text json s json.allocated)) same,
              omega (arith, fits, ap (λ s. length (json.str ++ s)) same),
            )
      ]
]

build_run :
    (json j : Jsonw) (text : Str) (m : ℕ)
    → indent json ≡ some j
    → grow (length j.str + length text + 1) (length j.str + length text) j.allocated ≡ some m
    → leb (length j.str + length text + 1) m ≡ true
    → build_str text json ≡ some (with_text j text m)
unfolding build_str append_text
build_run json j text m run grown holds = rw (build_str, run, grown, holds) refl

-- `json_build_str` on a writer whose depth fits its eight bits and whose indenter has at most 16 bytes
-- adds the indentation, unless it is told to skip it, and the text; it never writes outside the buffer,
-- and leaves room for the NUL.
pub build_str-Writes :
    (json : Jsonw) (text : Str)
    → IsWriter json
    → Writes json (margin json ++ text) (build_str text json)
unfolding build_str append_text
build_str-Writes json text v =
    let (n, run, fits) = indent-margin json v in
    let s = json.str ++ margin json in
    let (m, grown, room) =
      grow-grown (length s + length text + 1) (length s + length text) n (omega arith)
        (omega arith) in
    let holds : leb (length s + length text + 1) m ≡ true = ground arith in
    let joined : s ++ text ≡ json.str ++ (margin json ++ text) =
      append_assoc json.str (margin json) text in
    (
      m,
      build_run json (with_text json (margin json) n) text m run grown holds
          ∙ ap (λ t. some (record json { str = t; allocated = m })) joined,
      omega (arith, ap length joined, length-append s text),
    )
