-- ===== src/FilterDsl/Classes.antt =====
-- A character class as a list of bytes and ranges, and that the scan of core/filter_dsl.c finds
-- exactly its members.
use retrace.Prelude.{
  ℕ, ◌≤◌, ◌<◌, ◌≡◌, refl, ap, ◌∙◌, ◌↔◌, ◌⊎◌, inl, inr, Bool, true, false, not, ◌&&◌, ◌||◌, Option,
  none, some, List, [], ◌∷◌, ◌==◌, if◌then◌else◌, arith, CStr, length, Bool-cases,
}
use retrace.FilterDsl.GlobStep.{in_range, class_loop, class_first, class_at, negated}

pub data Item : Type 0 where
  byte : ℕ → Item
  range : ℕ → ℕ → Item

-- A list of items in front of what was read.
abbrev pub with_item : Item → Option (List Item × CStr) → Option (List Item × CStr)
with_item i none = none
with_item i (some (items, q)) = some (i ∷ items, q)

-- The items up to the closing `]`, and what follows it.
unfoldable pub items : CStr → Option (List Item × CStr)
items [] = none
items (a ∷ []) = if a == b']' then some ([], []) else none
items (a ∷ b ∷ []) =
    let single = with_item (byte a) (items (b ∷ [])) in
    if a == b']' then some ([], b ∷ []) else single
items (a ∷ b ∷ d ∷ q) =
    let wide = with_item (range a d) (items q) in
    let single = with_item (byte a) (items (b ∷ d ∷ q)) in
    if a == b']'
    then some ([], b ∷ d ∷ q)
    else if b == b'-' && not (d == b']')
    then wide
    else single

unfoldable pub items_first : CStr → Option (List Item × CStr)
unfolding items
items_first [] = none
items_first (x ∷ q) = if x == b']' then with_item (byte x) (items q) else items (x ∷ q)

abbrev pub with_sign : Bool → Option (List Item × CStr) → Option (Bool × List Item × CStr)
with_sign neg none = none
with_sign neg (some (l, q)) = some (neg, l, q)

-- The class that starts after a `[`: whether it is negated, its items, and what follows it.
unfoldable pub class_of : CStr → Option (Bool × List Item × CStr)
unfolding items_first
class_of [] = none
class_of (x ∷ q) =
    if x == b'!' || x == b'^'
    then with_sign true (items_first q)
    else with_sign false (items_first (x ∷ q))

module _ (char_le : ℕ → ℕ → Bool) where
  -- The byte is one of the items.
  abbrev pub Member : ℕ → List Item → Type 0
  Member c [] = ⊥
  Member c (byte a ∷ l) = (c ≡ a) ⊎ Member c l
  Member c (range a b ∷ l) = ((char_le a c ≡ true) × (char_le c b ≡ true)) ⊎ Member c l

  unfoldable pub member : ℕ → List Item → Bool
  member c [] = false
  member c (byte a ∷ l) = c == a || member c l
  member c (range a b ∷ l) = in_range char_le a b c || member c l

  pub member_iff : (c : ℕ) (l : List Item) → (member c l ≡ true) ↔ Member c l
  unfolding member in_range
  member_iff c [] = ground arith
  member_iff c (byte a ∷ l) = ground (arith, member_iff c l)
  member_iff c (range a b ∷ l) = ground (arith, member_iff c l)

  -- The result of a scan that has `matched` already.
  abbrev found : ℕ → Bool → Option (List Item × CStr) → Option (Bool × CStr)
  found c matched none = none
  found c matched (some (l, q)) = some (matched || member c l, q)

  or_assoc : (a b c : Bool) → ((a || b) || c) ≡ (a || (b || c))
  or_assoc true b c = refl
  or_assoc false b c = refl

  found-byte :
      (c : ℕ) (m : Bool) (a : ℕ) (r : Option (List Item × CStr))
      → found c (m || c == a) r ≡ found c m (with_item (byte a) r)
  unfolding member
  found-byte c m a none = refl
  found-byte c m a (some (l, q)) = ap (λ b. some (b, q)) (or_assoc m (c == a) (member c l))

  found-range :
      (c : ℕ) (m : Bool) (a b : ℕ) (r : Option (List Item × CStr))
      → found c (m || in_range char_le a b c) r ≡ found c m (with_item (range a b) r)
  unfolding member
  found-range c m a b none = refl
  found-range c m a b (some (l, q)) =
      ap (λ x. some (x, q)) (or_assoc m (in_range char_le a b c) (member c l))

  -- `found` of a conditional.
  found-if :
      (c : ℕ) (m b : Bool) (x y : Option (List Item × CStr)) (u v : Option (Bool × CStr))
      → u ≡ found c m x
      → v ≡ found c m y
      → (if b then u else v) ≡ found c m (if b then x else y)
  found-if c m true x y u v p q = p
  found-if c m false x y u v p q = q

  found-nil : (c : ℕ) (m : Bool) (q : CStr) → some (m, q) ≡ found c m (some ([], q))
  unfolding member
  found-nil c true q = refl
  found-nil c false q = refl

  class_loop-items : (c : ℕ) (m : Bool) (q : CStr) → class_loop char_le c m q ≡ found c m (items q)
  unfolding class_loop items
  class_loop-items c m [] = refl
  class_loop-items c m (a ∷ []) =
      found-if c m (a == b']') (some ([], [])) none _ _ (found-nil c m []) refl
  class_loop-items c m (a ∷ b ∷ []) =
      found-if c m (a == b']') (some ([], b ∷ [])) (with_item (byte a) (items (b ∷ []))) _ _
        (found-nil c m (b ∷ []))
        (class_loop-items c (m || c == a) (b ∷ []) ∙ found-byte c m a (items (b ∷ [])))
  class_loop-items c m (a ∷ b ∷ d ∷ q) =
      found-if c m (a == b']') (some ([], b ∷ d ∷ q)) _ _ _ (found-nil c m (b ∷ d ∷ q)) (
        found-if c m (b == b'-' && not (d == b']')) (with_item (range a d) (items q))
          (with_item (byte a) (items (b ∷ d ∷ q))) _ _
          (class_loop-items c (m || in_range char_le a d c) q ∙ found-range c m a d (items q))
          (class_loop-items c (m || c == a) (b ∷ d ∷ q) ∙ found-byte c m a (items (b ∷ d ∷ q))))

  class_first-items : (c : ℕ) (q : CStr) → class_first char_le c q ≡ found c false (items_first q)
  unfolding class_first items_first
  class_first-items c [] = refl
  class_first-items c (x ∷ q) = elim (Bool-cases (x == b']')) [
    | inl e ↦
        let is_bracket : x ≡ 93 = ground arith in
        rw is_bracket (class_loop-items c (c == b']') q ∙ found-byte c false b']' (items q))
    | inr e ↦ rw e (class_loop-items c false (x ∷ q))
  ]

  -- The answer of the scan, from the class that it reads.
  abbrev pub verdict : ℕ → Option (Bool × List Item × CStr) → Option (Bool × CStr)
  verdict c none = none
  verdict c (some (neg, l, q)) = some ((if neg then not (member c l) else member c l), q)

  verdict-plain :
      (c : ℕ) (r : Option (List Item × CStr)) → found c false r ≡ verdict c (with_sign false r)
  verdict-plain c none = refl
  verdict-plain c (some (l, q)) = refl

  verdict-negated :
      (c : ℕ) (r : Option (List Item × CStr))
      → negated (found c false r) ≡ verdict c (with_sign true r)
  unfolding negated
  verdict-negated c none = refl
  verdict-negated c (some (l, q)) = refl

  pub class_at-class_of : (c : ℕ) (q : CStr) → class_at char_le c q ≡ verdict c (class_of q)
  unfolding class_at class_of
  class_at-class_of c [] = refl
  class_at-class_of c (x ∷ q) = elim (Bool-cases (x == b'!' || x == b'^')) [
    | inl e ↦ rw e (ap negated (class_first-items c q) ∙ verdict-negated c (items_first q))
    | inr e ↦ rw e (class_first-items c (x ∷ q) ∙ verdict-plain c (items_first (x ∷ q)))
  ]

-- Less than `n` bytes follow what was read.
abbrev Within : ℕ → Option (List Item × CStr) → Type 0
Within n none = Unit {0}
Within n (some (l, q)) = length q < n

Within-item :
    (n m : ℕ) (i : Item) (r : Option (List Item × CStr))
    → m ≤ n
    → Within m r
    → Within n (with_item i r)
Within-item n m i none h w = tt
Within-item n m i (some (l, q)) h w = omega arith

Within-if :
    (n : ℕ) (b : Bool) (x y : Option (List Item × CStr))
    → Within n x
    → Within n y
    → Within n (if b then x else y)
Within-if n true x y p q = p
Within-if n false x y p q = q

items-Within : (p : CStr) → Within (length p) (items p)
unfolding items
items-Within [] = tt
items-Within (a ∷ []) = Within-if 1 (a == b']') (some ([], [])) none (omega arith) tt
items-Within (a ∷ b ∷ []) =
    Within-if 2 (a == b']') (some ([], b ∷ [])) _ (omega arith)
      (Within-item 2 1 (byte a) _ (omega arith) (items-Within (b ∷ [])))
items-Within (a ∷ b ∷ d ∷ q) = Within-if _ (a == b']') (some ([], b ∷ d ∷ q)) _ (omega arith) (
    Within-if _ (b == b'-' && not (d == b']')) (with_item (range a d) (items q)) _
      (Within-item _ (length q) (range a d) _ (omega arith) (items-Within q))
      (Within-item _ (length (b ∷ d ∷ q)) (byte a) _ (omega arith) (items-Within (b ∷ d ∷ q))))

Within-mono : (m n : ℕ) (r : Option (List Item × CStr)) → m ≤ n → Within m r → Within n r
Within-mono m n none h w = tt
Within-mono m n (some (l, q)) h w = omega arith

items_first-Within : (p : CStr) → Within (length p) (items_first p)
unfolding items_first
items_first-Within [] = tt
items_first-Within (x ∷ q) =
    Within-if _ (x == b']') (with_item (byte x) (items q)) _
      (Within-item _ (length q) (byte x) _ (omega arith) (items-Within q)) (items-Within (x ∷ q))

with_sign-shorter :
    (n : ℕ) (neg : Bool) (r : Option (List Item × CStr)) (b : Bool) (l : List Item) (q : CStr)
    → Within n r
    → with_sign neg r ≡ some (b, l, q)
    → length q < n
with_sign-shorter n neg none b l q w h = cc
with_sign-shorter n neg (some (l', q')) b l q w h = ground arith

-- A class is followed by less than it stands in.
pub class_of-shorter :
    (p : CStr) (neg : Bool) (l : List Item) (q : CStr)
    → class_of p ≡ some (neg, l, q)
    → length q < length p
unfolding class_of
class_of-shorter [] neg l q h = cc
class_of-shorter (x ∷ p) neg l q h = elim (Bool-cases (x == b'!' || x == b'^')) [
  | inl e ↦
      with_sign-shorter (length (x ∷ p)) true (items_first p) neg l q
        (Within-mono (length p) (length (x ∷ p)) (items_first p) (omega arith)
          (items_first-Within p))
        (rw e at h)
  | inr e ↦
      with_sign-shorter (length (x ∷ p)) false (items_first (x ∷ p)) neg l q
        (items_first-Within (x ∷ p)) (rw e at h)
]
