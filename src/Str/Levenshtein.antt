-- ===== src/Str/Levenshtein.antt =====
-- `ac_str_levenshtein` and edit scripts.
use mathlib.Core.List
use mathlib.Core.List.{
  reverse_aux, append-nil, reverse-cons, reverse-append, reverse-reverse, reverse_aux-eq,
}
use mathlib.Core.Path.{transport}
use libac.Prelude.{
  ℕ, zero, suc, ◌+◌, ◌≤◌, ◌<◌, ◌≡◌, ◌≢◌, ◌⊎◌, refl, sym, ap, ◌∙◌, true, Bool-cases, inl, inr, List,
  [], ◌∷◌, ◌++◌, ◌==◌, if◌then◌else◌, length, replicate, get_or, arith,
}
use libac.Str.{Str, minimum, row, rows, count_from, same_str, levenshtein}

-- Edit scripts from one string to another, read from the left: keep or replace a character, insert
-- one, delete one. The number is the cost.
pub data Edits : ℕ → Str → Str → Type 0 where
  done : Edits 0 [] []
  keep : {n : ℕ} {s t : Str} (c : ℕ) → Edits n s t → Edits n (s ++ c ∷ []) (t ++ c ∷ [])
  replace : {n : ℕ} {s t : Str} (a b : ℕ) → Edits n s t → Edits (n + 1) (s ++ a ∷ []) (t ++ b ∷ [])
  insert : {n : ℕ} {s t : Str} (b : ℕ) → Edits n s t → Edits (n + 1) s (t ++ b ∷ [])
  delete : {n : ℕ} {s t : Str} (a : ℕ) → Edits n s t → Edits (n + 1) (s ++ a ∷ []) t

-- The distance of the reversed strings, by the usual recursion.
dist : Str → Str → ℕ
dist [] t = length t
dist (a ∷ s) [] = length s + 1
dist (a ∷ s) (b ∷ t) =
    minimum (dist (a ∷ s) t + 1) (dist s (b ∷ t) + 1) (dist s t + (if a == b then 0 else 1))

minimum_lem : (a b c : ℕ) → (minimum a b c ≤ a) × (minimum a b c ≤ b) × (minimum a b c ≤ c)
unfolding minimum
minimum_lem a b c = ground arith

minimum-cases : (a b c : ℕ) → (minimum a b c ≡ a) ⊎ (minimum a b c ≡ b) ⊎ (minimum a b c ≡ c)
unfolding minimum
minimum-cases a b c = ground arith

-- The distances of the prefixes of `t` behind the reversed `rt`.
dists : Str → Str → Str → List ℕ
dists rs rt [] = dist rs rt ∷ []
dists rs rt (b ∷ t) = dist rs rt ∷ dists rs (b ∷ rt) t

dists-first : (rs rt t : Str) → get_or (dists rs rt t) 0 0 ≡ dist rs rt
unfolding dists
dists-first rs rt [] = refl
dists-first rs rt (b ∷ t) = refl

dists-last : (rs rt t : Str) → get_or (dists rs rt t) (length t) 0 ≡ dist rs (reverse_aux t rt)
unfolding dists
dists-last rs rt [] = refl
dists-last rs rt (b ∷ t) = dists-last rs (b ∷ rt) t

row-dists :
    (c : ℕ) (rs rt t : Str) → row c t (dists rs rt t) (dist (c ∷ rs) rt) ≡ dists (c ∷ rs) rt t
unfolding row dists dist
row-dists c rs rt [] = refl
row-dists c rs rt (b ∷ t) =
    ap
      (λ x.
        dist (c ∷ rs) rt
        ∷ row c t (dists rs (b ∷ rt) t)
            (minimum (dist (c ∷ rs) rt + 1) (x + 1) (dist rs rt + (if c == b then 0 else 1))))
      (dists-first rs (b ∷ rt) t)
    ∙ ap (◌∷◌ (dist (c ∷ rs) rt)) (row-dists c rs (b ∷ rt) t)

rows-dists :
    (i : ℕ) (rs s t : Str)
    → i ≡ length rs
    → rows i s t (dists rs [] t) (dists rs [] t) ≡ dists (reverse_aux s rs) [] t
unfolding rows dist
rows-dists i rs [] t len = refl
rows-dists i rs (c ∷ s) t len =
    ap (λ v. rows (i + 1) s t v v) round ∙ rows-dists (i + 1) (c ∷ rs) s t (omega arith)
  where
    first : i + 1 ≡ dist (c ∷ rs) []
    first = omega arith

    round : row c t (dists rs [] t) (i + 1) ≡ dists (c ∷ rs) [] t
    round = ap (row c t (dists rs [] t)) first ∙ row-dists c rs [] t

count_from-dists : (i : ℕ) (rt t : Str) → i ≡ length rt → count_from i (length t) ≡ dists [] rt t
unfolding count_from dists dist
count_from-dists i rt [] len = ap (λ n. n ∷ []) len
count_from-dists i rt (b ∷ t) len =
    (λ j. len j ∷ count_from-dists (i + 1) (b ∷ rt) t (omega arith) j)

same_str-eq : (s t : Str) → same_str s t ≡ true → s ≡ t
unfolding same_str
same_str-eq [] [] e = refl
same_str-eq [] (b ∷ t) e = absurd (ground arith)
same_str-eq (a ∷ s) [] e = absurd (ground arith)
same_str-eq (a ∷ s) (b ∷ t) e =
    let head : a ≡ b = ground arith in
    let tail : s ≡ t = same_str-eq s t (ground arith) in λ i. head i ∷ tail i

dist_self : (s : Str) → dist s s ≡ 0
unfolding dist
dist_self [] = refl
dist_self (a ∷ s) =
    ground
      (arith, dist_self s, minimum_lem (dist (a ∷ s) s + 1) (dist s (a ∷ s) + 1) (dist s s + 0))

-- The last cell of the last row; the run ignores what was in `v1`.
levenshtein-dist :
    (junk : ℕ) (s t : Str) → s ≢ [] → levenshtein junk s t ≡ dist (List.reverse s) (List.reverse t)
unfolding levenshtein rows dist
levenshtein-dist junk [] t ne = absurd (ne refl)
levenshtein-dist junk (c ∷ s) t ne = elim (Bool-cases (same_str (c ∷ s) t)) [
  | inl same ↦ rw same (
      sym (
        ap (λ x. dist (List.reverse (c ∷ s)) (List.reverse x)) (sym (same_str-eq (c ∷ s) t same))
        ∙ dist_self (List.reverse (c ∷ s))))
  | inr differ ↦ rw differ (
      ap (λ v0. get_or (rows 1 s t (row c t v0 1) (row c t v0 1)) (length t) 0)
        (count_from-dists 0 [] t refl)
      ∙ ap (λ v. get_or (rows 1 s t v v) (length t) 0) first_row
      ∙ ap (λ v. get_or v (length t) 0) (rows-dists 1 (c ∷ []) s t refl)
      ∙ dists-last (reverse_aux (c ∷ s) []) [] t)
]
  where
    first_row : row c t (dists [] [] t) 1 ≡ dists (c ∷ []) [] t
    first_row = row-dists c [] [] t

-- A step of a script, on reversed strings.
module _ {n : ℕ} (m : ℕ) (s t : Str) where
  insert_rev :
      (b : ℕ)
      → m ≡ n + 1
      → Edits n (List.reverse s) (List.reverse t)
      → Edits m (List.reverse s) (List.reverse (b ∷ t))
  insert_rev b cost e =
      transport (λ i. Edits (sym cost i) (List.reverse s) (sym (reverse-cons b t) i)) (insert b e)

  delete_rev :
      (a : ℕ)
      → m ≡ n + 1
      → Edits n (List.reverse s) (List.reverse t)
      → Edits m (List.reverse (a ∷ s)) (List.reverse t)
  delete_rev a cost e =
      transport (λ i. Edits (sym cost i) (sym (reverse-cons a s) i) (List.reverse t)) (delete a e)

  replace_rev :
      (a b : ℕ)
      → m ≡ n + (if a == b then 0 else 1)
      → Edits n (List.reverse s) (List.reverse t)
      → Edits m (List.reverse (a ∷ s)) (List.reverse (b ∷ t))
  replace_rev a b cost e = elim (Bool-cases (a == b)) [
    | inl same ↦
        let cost' : n ≡ m = ground arith in
        let ab : a ≡ b = ground arith in
        transport
          (λ i.
            Edits (cost' i) (sym (reverse-cons a s) i)
              ((ap (λ x. List.reverse t ++ x ∷ []) ab ∙ sym (reverse-cons b t)) i))
          (keep a e)
    | inr differ ↦
        let cost' : n + 1 ≡ m = ground arith in
        transport (λ i. Edits (cost' i) (sym (reverse-cons a s) i) (sym (reverse-cons b t) i))
          (replace a b e)
  ]

-- The distance is the cost of a script.
dist-Edits : (rs rt : Str) → Edits (dist rs rt) (List.reverse rs) (List.reverse rt)
unfolding dist
dist-Edits [] [] = done
dist-Edits [] (b ∷ t) = insert_rev (suc (length t)) [] t b (omega arith) (dist-Edits [] t)
dist-Edits (a ∷ []) [] = delete_rev 1 [] [] a refl done
dist-Edits (a ∷ x ∷ s) [] =
    delete_rev (length (x ∷ s) + 1) (x ∷ s) [] a (omega arith) (dist-Edits (x ∷ s) [])
dist-Edits (a ∷ s) (b ∷ t) =
    let step =
      minimum (dist (a ∷ s) t + 1) (dist s (b ∷ t) + 1) (dist s t + (if a == b then 0 else 1)) in
    elim (minimum-cases (dist (a ∷ s) t + 1) (dist s (b ∷ t) + 1)
      (dist s t + (if a == b then 0 else 1))) [
        | inl e ↦ insert_rev step (a ∷ s) t b e (dist-Edits (a ∷ s) t)
        | inr (inl e) ↦ delete_rev step s (b ∷ t) a e (dist-Edits s (b ∷ t))
        | inr (inr e) ↦ replace_rev step s t a b e (dist-Edits s t)
      ]

dist-insert : (rs rt : Str) (b : ℕ) → dist rs (b ∷ rt) ≤ dist rs rt + 1
unfolding dist
dist-insert [] rt b = omega arith
dist-insert (a ∷ rs) rt b = omega (
  arith,
  minimum_lem (dist (a ∷ rs) rt + 1) (dist rs (b ∷ rt) + 1)
      (dist rs rt + (if a == b then 0 else 1)),
)

dist-delete : (rs rt : Str) (a : ℕ) → dist (a ∷ rs) rt ≤ dist rs rt + 1
unfolding dist
dist-delete [] [] a = omega arith
dist-delete (x ∷ rs) [] a = omega arith
dist-delete rs (b ∷ rt) a = omega (
  arith,
  minimum_lem (dist (a ∷ rs) rt + 1) (dist rs (b ∷ rt) + 1)
      (dist rs rt + (if a == b then 0 else 1)),
)

dist-replace :
    (rs rt : Str) (a b : ℕ) → dist (a ∷ rs) (b ∷ rt) ≤ dist rs rt + (if a == b then 0 else 1)
unfolding dist
dist-replace rs rt a b = omega (
  arith,
  minimum_lem (dist (a ∷ rs) rt + 1) (dist rs (b ∷ rt) + 1)
      (dist rs rt + (if a == b then 0 else 1)),
)

-- No script costs less.
dist-least : {n : ℕ} {s t : Str} → Edits n s t → dist (List.reverse s) (List.reverse t) ≤ n
dist-least done = omega (arith, dist_self [])
dist-least (keep {s} {t} c e) =
    rw (reverse-append s (c ∷ []), reverse-append t (c ∷ []))
      (ground (arith, dist-least e, dist-replace (List.reverse s) (List.reverse t) c c))
dist-least (replace {s} {t} a b e) =
    rw (reverse-append s (a ∷ []), reverse-append t (b ∷ []))
      (ground (arith, dist-least e, dist-replace (List.reverse s) (List.reverse t) a b))
dist-least (insert {s} {t} b e) =
    rw (reverse-append t (b ∷ []))
      (omega (arith, dist-least e, dist-insert (List.reverse s) (List.reverse t) b))
dist-least (delete {s} {t} a e) =
    rw (reverse-append s (a ∷ []))
      (omega (arith, dist-least e, dist-delete (List.reverse s) (List.reverse t) a))

-- `ac_str_levenshtein` of a string that is not empty and any other is the cost of an edit script from
-- the one to the other.
pub levenshtein-Edits : (junk : ℕ) (s t : Str) → s ≢ [] → Edits (levenshtein junk s t) s t
levenshtein-Edits junk s t ne =
    transport
      (λ i.
        Edits (sym (levenshtein-dist junk s t ne) i) (reverse-reverse s i) (reverse-reverse t i))
      (dist-Edits (List.reverse s) (List.reverse t))

-- No edit script from a string that is not empty to another costs less than `ac_str_levenshtein` of
-- the two.
pub levenshtein_least :
    (junk : ℕ) {n : ℕ} {s t : Str} → s ≢ [] → Edits n s t → levenshtein junk s t ≤ n
levenshtein_least junk {s} {t} ne e = omega (arith, levenshtein-dist junk s t ne, dist-least e)

get_or-replicate : (junk n m : ℕ) → n < m → get_or (replicate m junk) n 0 ≡ junk
get_or-replicate junk n zero h = absurd (omega arith)
get_or-replicate junk zero (suc m) h = refl
get_or-replicate junk (suc n) (suc m) h = get_or-replicate junk n m (omega arith)

-- `ac_str_levenshtein` of the empty string and another is what `malloc` left in the memory that it
-- reads the result from.
pub levenshtein_unset : (junk b : ℕ) (t : Str) → levenshtein junk [] (b ∷ t) ≡ junk
unfolding levenshtein rows same_str
levenshtein_unset junk b t =
    get_or-replicate junk (length (b ∷ t)) (length (b ∷ t) + 1) (omega arith)

-- `ac_str_levenshtein` of a string that is not empty and any other is the cost of an edit script from
-- the one to the other, and no edit script between the two costs less.
pub levenshtein-Cheapest :
    (junk : ℕ) (s t : Str)
    → s ≢ []
    → Edits (levenshtein junk s t) s t × ((n : ℕ) → Edits n s t → levenshtein junk s t ≤ n)
levenshtein-Cheapest junk s t ne =
    (levenshtein-Edits junk s t ne, λ n e. levenshtein_least junk ne e)
