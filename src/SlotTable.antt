-- ===== src/SlotTable.antt =====
-- The table of the fault-injection actions (src/core/actions/call_count_limit.c and fail_first.c):
-- an array of entries by function name, where an entry with an empty name is free.
use mathlib.Core.Bool.{false≢true}
use retrace.Prelude.{
  All, ◌<◌, length, ℕ, suc, ◌+◌, ◌≡◌, ◌≢◌, refl, Bool, true, false, Option, none, some, List, [],
  ◌∷◌, arith, if◌then◌else◌, get_or, set, CStr, str_eq, str_eq_refl, str_eq→≡, Bool-cases,
  Option-cases, inl, inr, ◌⊎◌, ap, sym, ◌∙◌,
}

abbrev pub table_size : ℕ
table_size = 64

-- `name[0] == '\0'`
abbrev pub is_free : CStr → Bool
is_free [] = true
is_free (_ ∷ _) = false

module _ {ℓ} {A : Type ℓ} (name : A → CStr) where
  -- The loop of `find_or_claim` from slot `i` on: the entry of the function, else the first free one.
  unfoldable pub scan_slots : CStr → List A → ℕ → Option ℕ → Option ℕ
  scan_slots func [] i first_empty = first_empty
  scan_slots func (e ∷ es) i first_empty =
      let past = scan_slots func es (i + 1) first_empty in
      let past_free = scan_slots func es (i + 1) (some i) in
      if is_free (name e)
      then elim first_empty [ none ↦ past_free | some _ ↦ past ]
      else if str_eq (name e) func
      then some i
      else past

  -- The entry of a function: the first with its name.
  unfoldable pub held : CStr → List A → Option A
  held func [] = none
  held func (e ∷ es) =
      let rest = held func es in
      if is_free (name e) then rest else if str_eq (name e) func then some e else rest

  -- The slot `j` is the one to write for the function: what is written there under its name is its
  -- entry afterwards, and no other function's entry changes.
  pub record Place (func : CStr) (es : List A) (j : ℕ) : Type ℓ where
    pub self : (b : A) → name b ≡ func → held func (set es j b) ≡ some b
    pub other : (b : A) (m : CStr) → name b ≡ func → func ≢ m → held m (set es j b) ≡ held m es

  free_cases : (s : CStr) → (s ≡ []) ⊎ (is_free s ≡ false)
  free_cases [] = inl refl
  free_cases (_ ∷ _) = inr refl

  module _ (func : CStr) (named : is_free func ≡ false) where
    str_ne : (x m : CStr) → x ≢ m → str_eq x m ≡ false
    str_ne x m n = elim (Bool-cases (str_eq x m)) [
      | inl e ↦ absurd (n (str_eq→≡ x m e))
      | inr e ↦ e
    ]

    pub Place-here : (e : A) (es : List A) → (name e ≡ []) ⊎ (name e ≡ func) → Place func (e ∷ es) 0
    unfolding held
    Place-here e es free = record {
      self = λ b q. rw (q, named, str_eq_refl func) refl;
      other = λ b m q n.
          rw (q, named, str_ne func m n)
            (elim free [ inl f ↦ rw f refl | inr f ↦ rw (f, named, str_ne func m n) refl ]);
    }

    pub Place-later :
        (e : A) (es : List A) (j : ℕ)
        → (name e ≡ []) ⊎ (str_eq (name e) func ≡ false)
        → Place func es j
        → Place func (e ∷ es) (suc j)
    unfolding held
    Place-later e es j miss p = record {
      self = λ b q. elim miss [
        | inl f ↦ rw f (p.self b q)
        | inr f ↦ elim (free_cases (name e)) [
          | inl g ↦ rw g (p.self b q)
          | inr g ↦ rw (g, f) (p.self b q)
        ]
      ];
      other = λ b m q n. rw (p.other b m q n) refl;
    }

    is_for_false :
        (e : A) (es : List A)
        → held func (e ∷ es) ≡ none
        → (held func es ≡ none) × ((name e ≡ []) ⊎ (str_eq (name e) func ≡ false))
    unfolding held
    is_for_false e es h = elim (free_cases (name e)) [
      | inl f ↦ (rw f at h, inl f)
      | inr f ↦ elim (Bool-cases (str_eq (name e) func)) [
        | inl m ↦ ground (arith, f, m, h)
        | inr m ↦ (rw (f, m) at h, inr m)
      ]
    ]

    -- Where the function has an entry `a`, the scan stops at it.
    pub record Found (es : List A) (d a : A) (j : ℕ) : Type ℓ where
      pub stops : (i : ℕ) (fe : Option ℕ) → scan_slots func es i fe ≡ some (i + j)
      pub entry : get_or es j d ≡ a
      pub named_it : name a ≡ func
      pub place : Place func es j

    pub scan-held : (d a : A) (es : List A) → held func es ≡ some a → (j : ℕ) × Found es d a j
    unfolding held scan_slots
    scan-held d a [] h = ground arith
    scan-held d a (e ∷ es) h = elim (free_cases (name e)) [
      | inl f ↦
          let (j, p) = scan-held d a es (rw f at h) in
          (
            suc j,
            record {
              stops = λ i fe. rw f (elim (Option-cases fe) [
                | inl n ↦ rw n (p.stops (i + 1) (some i) ∙ ap some (omega arith))
                | inr (k, n) ↦ rw n (p.stops (i + 1) fe ∙ ap some (omega arith))
              ]);
              entry = p.entry;
              named_it = p.named_it;
              place = Place-later e es j (inl f) p.place;
            },
          )
      | inr f ↦ elim (Bool-cases (str_eq (name e) func)) [
        | inl m ↦
            let here : e ≡ a = ground (arith, f, m, h) in
            let own = str_eq→≡ (name e) func m in
            (
              0,
              record {
                stops = λ i fe. rw (f, m) (ap some (omega arith));
                entry = here;
                named_it = ap name (sym here) ∙ own;
                place = Place-here e es (inr own);
              },
            )
        | inr m ↦
            let (j, p) = scan-held d a es (rw (f, m) at h) in
            (
              suc j,
              record {
                stops = λ i fe. rw (f, m) (p.stops (i + 1) fe ∙ ap some (omega arith));
                entry = p.entry;
                named_it = p.named_it;
                place = Place-later e es j (inr m) p.place;
              },
            )
      ]
    ]

    -- Where it has none, the scan stops at the first free entry, or finds the table full.
    pub record Claimed (es : List A) (d : A) (j : ℕ) : Type ℓ where
      pub claims : (i : ℕ) → scan_slots func es i none ≡ some (i + j)
      pub inside : j < length es
      pub free_entry : name (get_or es j d) ≡ []
      pub place : Place func es j

    keeps_first :
        (es : List A) (i k : ℕ) → held func es ≡ none → scan_slots func es i (some k) ≡ some k
    unfolding scan_slots
    keeps_first [] i k h = refl
    keeps_first (e ∷ es) i k h =
        let (rest, miss) = is_for_false e es h in
        elim miss [
          | inl f ↦ rw f (keeps_first es (i + 1) k rest)
          | inr m ↦ elim (free_cases (name e)) [
            | inl f ↦ rw f (keeps_first es (i + 1) k rest)
            | inr f ↦ rw (f, m) (keeps_first es (i + 1) k rest)
          ]
        ]

    pub scan-absent :
        (d : A) (es : List A)
        → held func es ≡ none
        → ((j : ℕ) × Claimed es d j)
          ⊎ (All (λ e. is_free (name e) ≡ false) es × ((i : ℕ) → scan_slots func es i none ≡ none))
    unfolding scan_slots
    scan-absent d [] h = inr (tt, λ i. refl)
    scan-absent d (e ∷ es) h =
        let (rest, miss) = is_for_false e es h in
        elim (free_cases (name e)) [
          | inl f ↦ inl (
            0,
            record {
              claims = λ i. rw f (keeps_first es (i + 1) i rest ∙ ap some (omega arith));
              inside = omega arith;
              free_entry = f;
              place = Place-here e es (inl f);
            },
          )
          | inr f ↦
              let m : str_eq (name e) func ≡ false = elim miss [
                | inl g ↦ absurd (false≢true (sym f ∙ ap is_free g))
                | inr g ↦ g
              ] in
              elim (scan-absent d es rest) [
                | inl (j, p) ↦ inl (
                  suc j,
                  record {
                    claims = λ i. rw (f, m) (p.claims (i + 1) ∙ ap some (omega arith));
                    inside = omega (arith, p.inside);
                    free_entry = p.free_entry;
                    place = Place-later e es j (inr m) p.place;
                  },
                )
                | inr (full, none_left) ↦ inr ((f, full), λ i. rw (f, m) (none_left (i + 1)))
              ]
        ]
