-- ===== src/Redact/Patterns.antt =====
-- The table of patterns that the two setters of core/redact.c fill.
use retrace.Prelude.{
  ℕ, zero, suc, ◌+◌, ◌≤◌, ◌<◌, ◌≡◌, refl, sym, ap, ap₂, ◌∙◌, ◌⊎◌, inl, inr, Bool, true, false, not,
  Option, none, some, List, [], ◌∷◌, map, arith, ltb, ◌==◌, if◌then◌else◌, CStr, length, All,
  Bool-cases,
}
use retrace.Redact.{
  patterns_max, fits, set_loop, set_patterns, field, after_field, with_field, csv_loop, set_csv,
}

-- At most 32 patterns, each of them of 1 to 127 bytes.
abbrev pub IsTable : List CStr → Type 0
IsTable l = (length l ≤ patterns_max) × All (λ s. fits s ≡ true) l

set_loop-fits : (count : ℕ) (l : List (Option CStr)) → All (λ s. fits s ≡ true) (set_loop count l)
unfolding set_loop
set_loop-fits count [] = tt
set_loop-fits count (none ∷ rest) = elim (Bool-cases (ltb count patterns_max)) [
  | inl e ↦ rw e (set_loop-fits count rest)
  | inr e ↦ rw e tt
]
set_loop-fits count (some s ∷ rest) = elim (Bool-cases (ltb count patterns_max)) [
  | inl e ↦ elim (Bool-cases (fits s)) [
    | inl h ↦ rw (e, h) (h, set_loop-fits (count + 1) rest)
    | inr h ↦ rw (e, h) (set_loop-fits count rest)
  ]
  | inr e ↦ rw e tt
]

set_loop-length :
    (count : ℕ) (l : List (Option CStr))
    → count ≤ patterns_max
    → length (set_loop count l) + count ≤ patterns_max
unfolding set_loop
set_loop-length count [] h = omega arith
set_loop-length count (none ∷ rest) h = elim (Bool-cases (ltb count patterns_max)) [
  | inl e ↦ rw e (set_loop-length count rest h)
  | inr e ↦ rw e (omega arith)
]
set_loop-length count (some s ∷ rest) h = elim (Bool-cases (ltb count patterns_max)) [
  | inl e ↦
      let room : count + 1 ≤ patterns_max = ground arith in
      elim (Bool-cases (fits s)) [
        | inl g ↦ rw (e, g) (omega (arith, set_loop-length (count + 1) rest room))
        | inr g ↦ rw (e, g) (set_loop-length count rest h)
      ]
  | inr e ↦ rw e (omega arith)
]

-- The setter leaves at most 32 patterns, each of 1 to 127 bytes.
pub set_patterns-IsTable : (l : Option (List (Option CStr))) → IsTable (set_patterns l)
unfolding set_patterns
set_patterns-IsTable none = (omega arith, tt)
set_patterns-IsTable (some l) =
    (omega (arith, set_loop-length 0 l (omega arith)), set_loop-fits 0 l)

-- The fields of a text, of which there is one more than commas.
abbrev on_head : ℕ → List CStr → List CStr
on_head c [] = (c ∷ []) ∷ []
on_head c (s ∷ rest) = (c ∷ s) ∷ rest

unfoldable pub fields : CStr → List CStr
fields [] = [] ∷ []
fields (c ∷ s) = let rest = fields s in if c == b',' then [] ∷ rest else on_head c rest

abbrev Split : CStr → Type 0
Split s =
    (fields s ≡ field s ∷ fields (after_field s))
    ⊎ ((fields s ≡ field s ∷ []) × (after_field s ≡ []))

fields-Split : (s : CStr) → Split s
unfolding fields field after_field
fields-Split [] = inr (refl, refl)
fields-Split (c ∷ s) = elim (Bool-cases (c == b',')) [
  | inl e ↦ inl (rw e refl)
  | inr e ↦ elim (fields-Split s) [
    | inl h ↦ inl (rw e (ap (on_head c) h))
    | inr (h, a) ↦ inr (rw e (ap (on_head c) h), rw e a)
  ]
]

after_field-le : (s : CStr) → length (after_field s) ≤ length s
unfolding after_field
after_field-le [] = omega arith
after_field-le (c ∷ s) = ground (arith, after_field-le s)

after_field-lt : (c : ℕ) (s : CStr) → length (after_field (c ∷ s)) ≤ length s
unfolding after_field
after_field-lt c s = ground (arith, after_field-le s)

-- What the array setter makes of the fields.
abbrev from_fields : ℕ → CStr → List CStr
from_fields count s = set_loop count (map some (fields s))

if_same : (b : Bool) (l : List CStr) → (if b then l else l) ≡ l
if_same true l = refl
if_same false l = refl

from_fields-end : (count : ℕ) → set_loop count (some [] ∷ []) ≡ []
unfolding set_loop fits
from_fields-end count = if_same (not (ltb count patterns_max)) []

from_fields-step :
    (count : ℕ) (c : ℕ) (s : CStr)
    → from_fields count (c ∷ s) ≡ (
        if not (ltb count patterns_max)
        then []
        else if fits (field (c ∷ s))
        then field (c ∷ s) ∷ from_fields (count + 1) (after_field (c ∷ s))
        else from_fields count (after_field (c ∷ s)))
unfolding set_loop fields
from_fields-step count c s = elim (fields-Split (c ∷ s)) [
  | inl h ↦ rw h refl
  | inr (h, a) ↦
      rw (h, a)
        (ap₂
          (λ u v.
            if not (ltb count patterns_max)
            then []
            else if fits (field (c ∷ s))
            then field (c ∷ s) ∷ u
            else v)
          (sym (from_fields-end (count + 1))) (sym (from_fields-end count)))
]

with_field-some :
    (b g : Bool) (x : CStr) (p q : Option (List CStr)) (u v : List CStr)
    → p ≡ some u
    → q ≡ some v
    → (if b then some [] else if g then with_field x p else q)
      ≡ some (if b then [] else if g then x ∷ u else v)
with_field-some true g x p q u v e h = refl
with_field-some false true x p q u v e h = rw e refl
with_field-some false false x p q u v e h = h

csv_loop-fields :
    (f count : ℕ) (s : CStr) → length s < f → csv_loop f count s ≡ some (from_fields count s)
unfolding csv_loop fields
csv_loop-fields zero count s h = absurd (omega arith)
csv_loop-fields (suc f) count [] h = ap some (sym (from_fields-end count))
csv_loop-fields (suc f) count (c ∷ s) h =
    let shorter : length (after_field (c ∷ s)) < f = omega (arith, after_field-lt c s) in
    with_field-some (not (ltb count patterns_max)) (fits (field (c ∷ s))) (field (c ∷ s)) _ _ _ _
      (csv_loop-fields f (count + 1) (after_field (c ∷ s)) shorter)
      (csv_loop-fields f count (after_field (c ∷ s)) shorter)
    ∙ ap some (sym (from_fields-step count c s))

-- The setter from a comma-separated text ends, and fills the same table as the setter from the
-- list of its fields.
pub set_csv-set_patterns :
    (csv : CStr) → set_csv (some csv) ≡ some (set_patterns (some (map some (fields csv))))
unfolding set_csv set_patterns
set_csv-set_patterns csv = csv_loop-fields (length csv + 1) 0 csv (omega arith)
