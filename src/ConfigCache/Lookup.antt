-- ===== src/ConfigCache/Lookup.antt =====
-- The whole cache: the index is always built, its lookups end, and they are the linear scan.
use native.Mathlib.Nat.{pow-suc, one-le-pow}
use retrace.Prelude.{
  ℕ, zero, suc, ◌+◌, ◌*◌, ◌^◌, ◌≤◌, ◌<◌, ◌≡◌, refl, ap, ◌∙◌, subst, Bool, true, false, Option, none,
  some, List, [], ◌∷◌, arith, ltb, length, get_or, replicate, length-replicate, All-replicate,
  All-get_or, CStr, codes, str_eq, str_eq→≡, Bool-cases, Option-cases, inl, inr, if◌then◌else◌,
}
use retrace.Json.{Json}
use retrace.ConfigCache.{
  max_entries, start, probe, scan, table_size, Snap, index, lookup, collect, build,
}
use retrace.ConfigCache.Probe.{probe-none}
use retrace.ConfigCache.Index.{Indexed, fill-Indexed, start-lt}
use retrace.ConfigCache.Scan.{zeros-replicate}

-- The number of buckets is a power of two, and large enough where the rounds suffice.
table_size-pow :
    (f want n : ℕ)
    → want ≤ 2 ^ (n + f)
    → (k : ℕ) × (table_size f want (2 ^ n) ≡ 2 ^ k) × (want ≤ 2 ^ k)
unfolding table_size
table_size-pow zero want n h =
    (n, refl, subst (λ m. want ≤ 2 ^ m) {x = n + 0} {y = n} (omega arith) h)
table_size-pow (suc f) want n h = elim (Bool-cases (ltb (2 ^ n) want)) [
  | inr e ↦ (n, rw e refl, ground arith)
  | inl e ↦
      let (k, eq, big) =
        table_size-pow f want (suc n)
          (subst (λ m. want ≤ 2 ^ m) {x = n + suc f} {y = suc n + f} (omega arith) h) in
      (
        k,
        rw e (
            ap (table_size f want) {x = 2 ^ n * 2} {y = 2 ^ suc n} (omega (arith, pow-suc 2 n))
            ∙ eq),
        big,
      )
]

buckets_for : (n : ℕ) → n ≤ max_entries → (k : ℕ) × (table_size 64 (n * 4) 8 ≡ 2 ^ k) × (n < 2 ^ k)
buckets_for n h =
    let (k, e, big) = table_size-pow 64 (n * 4) 3 (omega arith) in
    (k, e, omega (arith, one-le-pow k 2))

no_entries : (nb b : ℕ) → get_or {A = ℕ} (replicate nb 0) b 0 ≡ 0
no_entries nb b = omega (
  arith,
  All-get_or (λ (c : ℕ). c ≤ 0) (replicate nb 0) b 0
      (All-replicate (λ (c : ℕ). c ≤ 0) nb 0 (omega arith)) (omega arith),
)

module _ {ℓ} {A : Type ℓ} where
  -- A table with no entry in it.
  Indexed-nil :
      (es : List (CStr × A)) (nb k : ℕ) (pow : nb ≡ 2 ^ k) → Indexed es nb k pow [] (replicate nb 0)
  unfolding scan
  Indexed-nil es nb k pow = record {
    size = length-replicate nb 0;
    small = All-replicate (λ c. c ≤ 0) nb 0 (omega arith);
    empties = omega (arith, zeros-replicate nb);
    found = λ x.
        probe-none es nb x k pow nb (replicate nb 0) (start nb x) 0 (start-lt es nb k pow x)
          (omega (arith, one-le-pow k 2)) (no_entries nb _) (λ b n. absurd (n (no_entries nb b)));
  }

  abbrev Searches : List (CStr × A) → Snap A → Type ℓ
  Searches es snap = (name : CStr) → lookup (some snap) (some name) ≡ some (scan es name)

  lookup-hashed :
      (es : List (CStr × A)) (t : List ℕ) (nb : ℕ)
      → length t ≡ nb
      → 0 < nb
      → ((x : CStr) → probe nb es t nb x (start nb x) ≡ some (scan es x))
      → Searches es (record { entries = es; buckets = t })
  unfolding lookup
  lookup-hashed es t nb size pos found name = rw size (ground (arith, found name))

  -- For at most 256 entries the index is built, with or without memory for the buckets, and every
  -- lookup in it ends with the result of the linear scan: the first entry of the name, or none.
  lookup-index :
      (buckets_ok : Bool) (es : List (CStr × A))
      → length es ≤ max_entries
      → (snap : Snap A) × (index buckets_ok es ≡ some snap)
        × ((name : CStr) → lookup (some snap) (some name) ≡ some (scan es name))
  unfolding index
  lookup-index false es h =
      (record { entries = es; buckets = [] }, refl, λ name. unfold lookup in refl)
  lookup-index true es h =
      let (k, pow, room) = buckets_for (length es) h in
      let nb = table_size 64 (length es * 4) 8 in
      let (u, e, done) =
        fill-Indexed es nb k pow es [] (replicate nb 0) refl (omega arith)
          (Indexed-nil es nb k pow) in
      (
        record { entries = es; buckets = u },
        rw (e, index) refl,
        lookup-hashed es u nb done.size (omega arith) done.found,
      )

module _ (j : Json) where
  open j use {Object, get_string, get_array}

  -- The specification: the first script with this function name.
  unfoldable pub first_named : List (Option Object) → CStr → Option Object
  first_named [] name = none
  first_named (none ∷ scripts) name = first_named scripts name
  first_named (some script ∷ scripts) name = elim (get_string script (codes "func_name")) [
    | none ↦ first_named scripts name
    | some func ↦ if str_eq func name then some script else first_named scripts name
  ]

  pub length-collect :
      (room : ℕ) (scripts : List (Option Object)) → length (collect j room scripts) ≤ room
  unfolding collect
  length-collect zero scripts = omega arith
  length-collect (suc room) [] = omega arith
  length-collect (suc room) (none ∷ scripts) = length-collect (suc room) scripts
  length-collect (suc room) (some script ∷ scripts) =
      ground (arith, length-collect (suc room) scripts, length-collect room scripts)

  scan-collect :
      (room : ℕ) (scripts : List (Option Object)) (name : CStr)
      → length scripts ≤ room
      → str_eq [] name ≡ false
      → str_eq (codes "*") name ≡ false
      → scan (collect j room scripts) name ≡ first_named scripts name
  unfolding collect scan first_named
  scan-collect zero [] name h p q = refl
  scan-collect zero (_ ∷ scripts) name h p q = absurd (omega arith)
  scan-collect (suc room) [] name h p q = refl
  scan-collect (suc room) (none ∷ scripts) name h p q =
      scan-collect (suc room) scripts name (omega arith) p q
  scan-collect (suc room) (some script ∷ scripts) name h p q =
      elim (Option-cases (get_string script (codes "func_name"))) [
        | inl e ↦
            rw (e, scan, collect, first_named)
              (scan-collect (suc room) scripts name (omega arith) p q)
        | inr (func, e) ↦ ground (
          arith,
          scan-collect (suc room) scripts name,
          scan-collect room scripts name,
          str_eq→≡ func [],
          str_eq→≡ func (codes "*"),
        )
      ]

  -- A build over at most 256 scripts, with memory for the snapshot, succeeds. Every lookup of a name
  -- that is neither empty nor `*` then finds the first script of that name, or none.
  pub lookup-build :
      (conf : Object) (scripts : List (Option Object)) (buckets_ok : Bool)
      → get_array conf (codes "intercept_scripts") ≡ some scripts
      → length scripts ≤ max_entries
      → (snap : Snap Object) × (build j (some conf) true buckets_ok ≡ some (some snap))
        × ((name : CStr)
            → str_eq [] name ≡ false
            → str_eq (codes "*") name ≡ false
            → lookup (some snap) (some name) ≡ some (first_named scripts name))
  unfolding build
  lookup-build conf scripts buckets_ok e h =
      let (snap, made, finds) =
        lookup-index buckets_ok (collect j max_entries scripts)
          (length-collect max_entries scripts) in
      (
        snap,
        rw (e, build) (ap some made),
        λ name p q. finds name ∙ ap some (scan-collect max_entries scripts name h p q),
      )
