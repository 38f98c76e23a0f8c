-- ===== src/PathSet/Buckets.antt =====
-- src/core/actions/sandbox.c: in which buckets an entry that matches a path can be.
use retrace.Prelude.{
  ℕ, ◌%◌, ◌≡◌, refl, sym, ap, subst, ◌⊎◌, inl, inr, true, false, [], ◌∷◌, arith, ◌==◌, CStr,
  str_eq→≡, length, Bool-cases,
}
use retrace.ConfigCache.{fnv_step}
use retrace.PathSet.{
  path_buckets, is_separator, ends_in_separator, starts_with, path_matches, component_hash,
  first_comp_hash, entry_bucket,
}

component_hash-starts_with :
    (h : ℕ) (entry path : CStr)
    → ends_in_separator entry ≡ true
    → starts_with entry path ≡ true
    → component_hash h entry ≡ component_hash h path
unfolding ends_in_separator starts_with component_hash
component_hash-starts_with h [] path e s = ground arith
component_hash-starts_with h (c ∷ entry) [] e s = ground arith
component_hash-starts_with h (c ∷ []) (p ∷ path) e s =
    let same : p ≡ c = ground arith in rw (same, e) refl
component_hash-starts_with h (c ∷ d ∷ entry) (p ∷ path) e s =
    let same : p ≡ c = ground arith in
    let rest = component_hash-starts_with (fnv_step h c) (d ∷ entry) path e (ground arith) in
    elim (Bool-cases (is_separator c)) [ inl t ↦ rw (same, t) refl | inr t ↦ rw (same, t) rest ]

first_comp_hash-starts_with :
    (d : ℕ) (entry path : CStr)
    → ends_in_separator (d ∷ entry) ≡ true
    → starts_with (47 ∷ d ∷ entry) path ≡ true
    → first_comp_hash (47 ∷ d ∷ entry) ≡ first_comp_hash path
unfolding starts_with first_comp_hash
first_comp_hash-starts_with d entry [] e s = ground arith
first_comp_hash-starts_with d entry (p ∷ path) e s =
    let same : p ≡ 47 = ground arith in
    rw same (component_hash-starts_with 2166136261 (d ∷ entry) path e (ground arith))

-- The buckets of a path: that of its first component, and the one that is tried for every path.
abbrev pub InBuckets : CStr → ℕ → Type 0
InBuckets path b = (b ≡ path_buckets) ⊎ (b ≡ first_comp_hash path % path_buckets)

prefix-InBuckets :
    (path entry : CStr)
    → ends_in_separator (47 ∷ entry) ≡ true
    → starts_with (47 ∷ entry) path ≡ true
    → InBuckets path (entry_bucket (47 ∷ entry))
unfolding entry_bucket ends_in_separator
prefix-InBuckets path [] e s = inl refl
prefix-InBuckets path (d ∷ entry) e s =
    let longer : (length (47 ∷ d ∷ entry) == 1) ≡ false = ground arith in
    inr (rw (e, longer) (ap (λ h. h % path_buckets) (first_comp_hash-starts_with d entry path e s)))

slash_entry-InBuckets :
    (path entry : CStr)
    → path_matches path (47 ∷ entry) ≡ true
    → InBuckets path (entry_bucket (47 ∷ entry))
unfolding path_matches entry_bucket
slash_entry-InBuckets path entry h = elim (Bool-cases (ends_in_separator (47 ∷ entry))) [
  | inr n ↦
      let same = str_eq→≡ path (47 ∷ entry) (rw n at h) in
      inr (rw n (ap (λ p. first_comp_hash p % path_buckets) (sym same)))
  | inl e ↦ prefix-InBuckets path entry e (rw e at h)
]

-- An entry that matches a path is in the bucket of the path's first component or in the bucket
-- of the entries that are tried for every path.
pub entry_bucket-path_matches :
    (path entry : CStr)
    → path_matches path entry ≡ true
    → (entry_bucket entry ≡ path_buckets)
      ⊎ (entry_bucket entry ≡ first_comp_hash path % path_buckets)
unfolding entry_bucket
entry_bucket-path_matches path [] h = inl refl
entry_bucket-path_matches path (c ∷ entry) h = elim (Bool-cases (c == 47)) [
  | inr n ↦ inl (rw n refl)
  | inl e ↦
      let slash : c ≡ 47 = ground arith in
      subst (λ x. path_matches path (x ∷ entry) ≡ true → InBuckets path (entry_bucket (x ∷ entry)))
        (sym slash) (slash_entry-InBuckets path entry) h
]
