-- ===== src/PathSet/Lookup.antt =====
-- src/core/actions/sandbox.c: the lookup in a set and the walk over the list.
use mathlib.Core.Bool.{false≢true}
use retrace.Prelude.{
  ℕ, zero, suc, ◌+◌, ◌%◌, ◌≤◌, ◌<◌, ◌≡◌, ◌≢◌, refl, sym, ap, ◌∙◌, ◌⊎◌, inl, inr, Bool, true, false,
  Option, none, some, List, [], ◌∷◌, arith, ◌==◌, if◌then◌else◌, CStr, get_or, get_elem?,
  Bool-cases,
}
use retrace.PathSet.{
  path_buckets, bucket_of, first_comp_hash, CompiledSet, entry_at, matches_at, walk, scan,
  scan_bucket, lookup,
}
use retrace.PathSet.Buckets.{entry_bucket-path_matches}

-- Every entry of the list is in the part of its bucket.
abbrev pub IsSetOf : List (Option CStr) → CompiledSet → Type 0
IsSetOf list set =
    (m : ℕ) (e : Option CStr)
    → get_elem? list m ≡ some e
    → (at : ℕ) × (get_or set.off (bucket_of e) 0 ≤ at)
      × (at < get_or set.off (suc (bucket_of e)) 0)
      × (get_or set.idx at 0 ≡ m)

walk-entry_at :
    (path : CStr) (list : List (Option CStr)) (i : ℕ)
    → matches_at path (entry_at list i) ≡ true
    → walk path list ≡ true
unfolding walk
walk-entry_at path [] i h = ground arith
walk-entry_at path (e ∷ list) zero h = rw h refl
walk-entry_at path (e ∷ list) (suc i) h = elim (Bool-cases (matches_at path e)) [
  | inl t ↦ rw t refl
  | inr t ↦ rw t (walk-entry_at path list i h)
]

-- An entry that the walk stops at.
walk-found :
    (path : CStr) (list : List (Option CStr))
    → walk path list ≡ true
    → (m : ℕ) × (e : Option CStr) × (get_elem? list m ≡ some e) × (matches_at path e ≡ true)
unfolding walk
walk-found path [] h = ground arith
walk-found path (e ∷ list) h = elim (Bool-cases (matches_at path e)) [
  | inl t ↦ (0, e, refl, t)
  | inr t ↦ let (m, x, g, k) = walk-found path list (rw t at h) in (suc m, x, g, k)
]

scan-walk :
    (path : CStr) (list : List (Option CStr)) (idx : List ℕ) (lo k : ℕ)
    → scan path list idx lo k ≡ true
    → walk path list ≡ true
unfolding scan
scan-walk path list idx lo zero h = ground arith
scan-walk path list idx lo (suc k) h =
    elim (Bool-cases (matches_at path (entry_at list (get_or idx lo 0)))) [
      | inl t ↦ walk-entry_at path list (get_or idx lo 0) t
      | inr t ↦ scan-walk path list idx (lo + 1) k (rw t at h)
    ]

scan-finds :
    (path : CStr) (list : List (Option CStr)) (idx : List ℕ) (lo k at : ℕ)
    → lo ≤ at
    → at < lo + k
    → matches_at path (entry_at list (get_or idx at 0)) ≡ true
    → scan path list idx lo k ≡ true
unfolding scan
scan-finds path list idx lo zero at l h g = absurd (omega arith)
scan-finds path list idx lo (suc k) at l h g =
    elim (Bool-cases (matches_at path (entry_at list (get_or idx lo 0)))) [
      | inl t ↦ rw t refl
      | inr t ↦ elim (Bool-cases (lo == at)) [
        | inl same ↦
            let e : lo ≡ at = ground arith in
            rw (ap (λ x. matches_at path (entry_at list (get_or idx x 0))) e ∙ g) refl
        | inr n ↦
            let ne : lo ≢ at = ground arith in
            rw t
              (scan-finds path list idx (lo + 1) k at (omega (arith, l, ne)) (omega (arith, h)) g)
      ]
    ]

entry_at-elem :
    (list : List (Option CStr)) (m : ℕ) (e : Option CStr)
    → get_elem? list m ≡ some e
    → entry_at list m ≡ e
entry_at-elem [] m e g = ground arith
entry_at-elem (x ∷ list) zero e g = ground (arith, g)
entry_at-elem (x ∷ list) (suc m) e g = entry_at-elem list m e g

scan_bucket-finds :
    (path : CStr) (list : List (Option CStr)) (set : CompiledSet) (m : ℕ) (e : Option CStr)
    → IsSetOf list set
    → get_elem? list m ≡ some e
    → matches_at path e ≡ true
    → scan_bucket path list set (bucket_of e) ≡ true
unfolding scan_bucket
scan_bucket-finds path list set m e h g t =
    let (at, lo, hi, put) = h m e g in
    let next : bucket_of e + 1 ≡ suc (bucket_of e) = omega arith in
    rw next (
      scan-finds path list set.idx (get_or set.off (bucket_of e) 0) _ at lo (omega (arith, lo, hi))
        (ap (λ i. matches_at path (entry_at list i)) put
          ∙ ap (matches_at path) (entry_at-elem list m e g)
          ∙ t))

scan_bucket-walk :
    (path : CStr) (list : List (Option CStr)) (set : CompiledSet) (b : ℕ)
    → scan_bucket path list set b ≡ true
    → walk path list ≡ true
unfolding scan_bucket
scan_bucket-walk path list set b h = scan-walk path list set.idx _ _ h

either : (a b : Bool) → (a ≡ true) ⊎ (b ≡ true) → (if a then true else b) ≡ true
either true b h = refl
either false b h = ground arith

neither : (a b : Bool) → a ≢ true → b ≢ true → (if a then true else b) ≡ false
neither true b h k = absurd (h refl)
neither false true h k = absurd (k refl)
neither false false h k = refl

lookup-finds :
    (path : CStr) (list : List (Option CStr)) (set : CompiledSet) (m : ℕ) (e : Option CStr)
    → IsSetOf list set
    → get_elem? list m ≡ some e
    → matches_at path e ≡ true
    → lookup path list set ≡ true
unfolding lookup bucket_of
lookup-finds path list set m none h g t = ground arith
lookup-finds path list set m (some e) h g t =
    let found = scan_bucket-finds path list set m (some e) h g t in
    let own = first_comp_hash path % path_buckets in
    either (scan_bucket path list set own) (scan_bucket path list set path_buckets)
      (elim (entry_bucket-path_matches path e t) [
        | inl any ↦ inr (ap (scan_bucket path list set) (sym any) ∙ found)
        | inr same ↦ inl (ap (scan_bucket path list set) (sym same) ∙ found)
      ])

-- The lookup in the set of a list answers what the walk over the list answers.
pub lookup-walk :
    (path : CStr) (list : List (Option CStr)) (set : CompiledSet)
    → IsSetOf list set
    → lookup path list set ≡ walk path list
unfolding lookup
lookup-walk path list set h = elim (Bool-cases (walk path list)) [
  | inl t ↦
      let (m, e, g, k) = walk-found path list t in lookup-finds path list set m e h g k ∙ sym t
  | inr n ↦
      let never : (b : ℕ) → scan_bucket path list set b ≢ true =
        λ b s. false≢true (sym n ∙ scan_bucket-walk path list set b s) in
      neither (scan_bucket path list set (first_comp_hash path % path_buckets))
        (scan_bucket path list set path_buckets) (never (first_comp_hash path % path_buckets))
        (never path_buckets)
      ∙ sym n
]
