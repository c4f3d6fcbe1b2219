-- ===== src/Jsonw/Closing.antt =====
-- `__json_end`: the end of an array or an object.
use mathlib.Core.List.{append_assoc, append-nil}
use libac.Prelude.{
  ℕ, suc, ◌+◌, ◌-◌, ◌%◌, ◌^◌, ◌<◌, ◌≡◌, ◌⊎◌, refl, sym, ap, ◌∙◌, Bool, true, false, ◌||◌, Option,
  some, List, [], ◌∷◌, ◌++◌, ltb, ◌==◌, if◌then◌else◌, length, length-append, get_or, take, arith,
}
use libac.Prelude.Text.{codes}
use libac.Str.{Str}
use libac.Jsonw.{Jsonw, indent_of, build_str, close, json_end}
use libac.Jsonw.Buffer.{indents, IsWriter, with_text, margin, build_str-Writes}

take-append {ℓ} : {A : Type ℓ} (xs ys : List A) → take (length xs) (xs ++ ys) ≡ xs
take-append [] [] = refl
take-append [] (y ∷ ys) = refl
take-append (x ∷ xs) ys = ap (◌∷◌ x) (take-append xs ys)

get_or-append : (xs : Str) (y : ℕ) (ys : Str) → get_or (xs ++ y ∷ ys) (length xs) 0 ≡ y
get_or-append [] y ys = refl
get_or-append (x ∷ xs) y ys = get_or-append xs y ys

-- What follows the closing bracket at a depth
abbrev pub separator : ℕ → Str
separator d = if ltb 0 d then codes ",\n" else []

-- A run to a text, one level up, in a buffer that holds it.
abbrev pub Closes : Jsonw → ℕ → Str → Option Jsonw → Type 0
Closes json d text run =
    (n : ℕ) × (run ≡ some (record json { str = text; allocated = n; depth = d; skip_tabs = false }))
    × (length text < n)

close_run :
    (closer : Str) (empty : Bool) (json j1 j3 : Jsonw)
    → build_str
        (if empty then [] else codes "\n")
        (record json { depth = (json.depth + 255) % 2 ^ 8; skip_tabs = true })
      ≡ some j1
    → build_str
        (closer ++ separator j1.depth)
        (record j1 { skip_tabs = if empty then true else false })
      ≡ some j3
    → close closer empty json ≡ some (record j3 { skip_tabs = false })
unfolding close
close_run closer empty json j1 j3 first second = rw (close, first, second) refl

-- What stands between the last item and the closing bracket
abbrev pub gap : Bool → ℕ → Str → Str
gap empty d ind = if empty then [] else b'\n' ∷ indents d ind

gap_lem :
    (empty : Bool) (d : ℕ) (ind body c : Str)
    → (body ++ (if empty then [] else codes "\n"))
        ++ ((if (if empty then true else false) then [] else indents d ind) ++ c)
      ≡ body ++ (gap empty d ind ++ c)
gap_lem true d ind body c = ap (λ b. b ++ c) (append-nil body)
gap_lem false d ind body c = append_assoc body (codes "\n") (indents d ind ++ c)

close-Closes :
    (json : Jsonw) (closer : Str) (empty : Bool) (body : Str) (d : ℕ)
    → IsWriter json
    → json.depth ≡ suc d
    → length body < json.allocated
    → Closes json d
        (body ++ (gap empty d (indent_of json) ++ (closer ++ separator d)))
        (close closer empty (record json { str = body }))
close-Closes json closer empty body d v inside room =
    let level : (json.depth + 255) % 2 ^ 8 ≡ d = omega (arith, v.depth_in) in
    let small : d < 2 ^ 8 = omega (arith, v.depth_in) in
    let x : Str = if empty then [] else codes "\n" in
    let c : Str = closer ++ separator d in
    let j0 : Jsonw = record json { str = body; depth = d; skip_tabs = true } in
    let (n1, run1, room1) =
      build_str-Writes j0 x (record { room = room; depth_in = small; short = v.short }) in
    let j1 : Jsonw = with_text j0 x n1 in
    let j2 : Jsonw = record j1 { skip_tabs = if empty then true else false } in
    let (n2, run2, room2) =
      build_str-Writes j2 c (record { room = room1; depth_in = small; short = v.short }) in
    let text = gap_lem empty d (indent_of json) body c in
    (
      n2,
      close_run closer empty (record json { str = body }) j1 (with_text j2 (margin j2 ++ c) n2)
            (ap (λ l. build_str x (record json { str = body; depth = l; skip_tabs = true })) level
              ∙ run1)
            run2
          ∙ ap (λ t. some (record json { str = t; allocated = n2; depth = d; skip_tabs = false }))
              text,
      omega (arith, room2, ap length text),
    )

-- The text behind the last item, or behind the opening bracket
abbrev pub tail_of : Bool → ℕ → Str
tail_of empty bracket = if empty then bracket ∷ codes "\n" else codes ",\n"

abbrev pub kept : Bool → ℕ → Str
kept empty bracket = if empty then bracket ∷ [] else []

last_two :
    (s body : Str) (y z : ℕ)
    → s ≡ body ++ y ∷ z ∷ []
    → (ltb (length s) 2 ≡ false)
      × (get_or s (length s - 2) 0 ≡ y)
      × (take (length s - 2) s ≡ body)
      × (take (length s - 1) s ≡ body ++ y ∷ [])
last_two s body y z e =
    let len : length s ≡ length body + 2 =
      omega (arith, ap length e, length-append body (y ∷ z ∷ [])) in
    let two : length s - 2 ≡ length body = omega arith in
    let one : length s - 1 ≡ length (body ++ y ∷ []) = omega (arith, length-append body (y ∷ [])) in
    let front : s ≡ (body ++ y ∷ []) ++ z ∷ [] = e ∙ sym (append_assoc body (y ∷ []) (z ∷ [])) in
    (
      ground arith,
      (λ i. get_or (e i) (two i) 0) ∙ get_or-append body y (z ∷ []),
      (λ i. take (two i) (e i)) ∙ take-append body (y ∷ z ∷ []),
      (λ i. take (one i) (front i)) ∙ take-append (body ++ y ∷ []) (z ∷ []),
    )

-- The two cases of `__json_end`
json_end_run :
    (json : Jsonw) (closer : Str) (c : ℕ) (empty : Bool) (body : Str)
    → ltb (length json.str) 2 ≡ false
    → get_or json.str (length json.str - 2) 0 ≡ c
    → ((c == b'[') || (c == b'{')) ≡ empty
    → take (length json.str - (if empty then 1 else 2)) json.str ≡ body
    → json_end closer json ≡ close closer empty (record json { str = body })
unfolding json_end
json_end_run json closer c true body long char opens cut =
    rw (json_end, long, char, opens, cut) refl
json_end_run json closer c false body long char opens cut =
    rw (json_end, long, char, opens, cut) refl

-- `__json_end` right behind an opening bracket, if `empty`, or behind an item takes off the line feed,
-- with the comma of the item, and adds the closing bracket.
pub json_end-Closes :
    (json : Jsonw) (closer : Str) (empty : Bool) (bracket : ℕ) (body : Str) (d : ℕ)
    → IsWriter json
    → json.depth ≡ suc d
    → (bracket ≡ b'[') ⊎ (bracket ≡ b'{')
    → json.str ≡ body ++ tail_of empty bracket
    → Closes json d
        (body ++ (kept empty bracket ++ (gap empty d (indent_of json) ++ (closer ++ separator d))))
        (json_end closer json)
unfolding json_end
json_end-Closes json closer true bracket body d v inside open_with text =
    let (long, char, cut, keep) = last_two json.str body bracket b'\n' text in
    let opens : ((bracket == b'[') || (bracket == b'{')) ≡ true = ground arith in
    let text' = append_assoc body (bracket ∷ []) (closer ++ separator d) in
    let (n, run, room) = close-Closes json closer true (body ++ bracket ∷ []) d v inside (
      omega (
        arith,
        v.room,
        ap length text,
        length-append body (bracket ∷ []),
        length-append body (bracket ∷ b'\n' ∷ []),
      )) in
    (
      n,
      json_end_run json closer bracket true (body ++ bracket ∷ []) long char opens keep
          ∙ run
          ∙ ap (λ t. some (record json { str = t; allocated = n; depth = d; skip_tabs = false }))
              text',
      omega (arith, room, ap length text'),
    )
json_end-Closes json closer false bracket body d v inside open_with text =
    let (long, char, cut, keep) = last_two json.str body b',' b'\n' text in
    let (n, run, room) =
      close-Closes json closer false body d v inside
        (omega (arith, v.room, ap length text, length-append body (codes ",\n"))) in
    (n, json_end_run json closer b',' false body long char refl cut ∙ run, room)
