-- ===== src/Sandbox/Access.antt =====
-- src/core/actions/sandbox.c: the calls that write, described apart from the code.
use mathlib.Core.Bool.{false≢true}
use retrace.Prelude.{
  ℕ, zero, suc, ◌%◌, ◌≡◌, ◌≢◌, refl, sym, ap, ◌∙◌, ◌⊎◌, inl, inr, Bool, true, false, not, ◌&&◌,
  ◌||◌, Option, none, some, List, [], ◌∷◌, arith, ◌==◌, CStr, codes, str_eq, str_eq→≡, str_eq_refl,
  Bool-cases, some-inj, some≢none,
}
use retrace.Prelude.Int.{ℤ, pos, negsuc, eqb_ℤ}
use retrace.FilterDsl.Eval.{FuncParam}
use retrace.PathSet.{Memory}
use retrace.Sandbox.{
  Call, write_funcs, is_among, mode_writes, low_bits, second, has_string, mode_param, flags_param,
  call_is_write,
}

-- The test says whether the statement holds.
abbrev pub Decides : Bool → Type 0 → Type 0
Decides b P = ((b ≡ true) × P) ⊎ ((b ≡ false) × ¬ P)

pub Decides-iff : {b : Bool} {P Q : Type 0} → (P → Q) → (Q → P) → Decides b P → Decides b Q
Decides-iff f g (inl (e, p)) = inl (e, f p)
Decides-iff f g (inr (e, n)) = inr (e, λ q. n (g q))

pub Decides-or : {a b : Bool} {P Q : Type 0} → Decides a P → Decides b Q → Decides (a || b) (P ⊎ Q)
Decides-or {b = b} (inl (e, p)) d = inl (rw e refl, inl p)
Decides-or (inr (e, n)) (inl (f, q)) = inl (rw (e, f) refl, inr q)
Decides-or (inr (e, n)) (inr (f, m)) =
    inr (rw (e, f) refl, λ s. elim s [ inl p ↦ n p | inr q ↦ m q ])

pub Decides-and : {a b : Bool} {P Q : Type 0} → Decides a P → Decides b Q → Decides (a && b) (P × Q)
Decides-and (inl (e, p)) (inl (f, q)) = inl (rw (e, f) refl, (p, q))
Decides-and (inl (e, p)) (inr (f, m)) = inr (rw (e, f) refl, λ s. m s.1)
Decides-and (inr (e, n)) d = inr (rw e refl, λ s. n s.0)

pub Decides-str_eq : (s t : CStr) → Decides (str_eq s t) (s ≡ t)
Decides-str_eq s t = elim (Bool-cases (str_eq s t)) [
  | inl e ↦ inl (e, str_eq→≡ s t e)
  | inr e ↦ inr (e, λ q. false≢true (sym e ∙ ap (str_eq s) (sym q) ∙ str_eq_refl s))
]

Decides-eq : (m n : ℕ) → Decides (m == n) (m ≡ n)
Decides-eq m n = elim (Bool-cases (m == n)) [
  | inl e ↦ inl (e, ground arith)
  | inr e ↦ inr (e, λ q. ground arith)
]

Decides-given : (v : ℤ) → Decides (not (eqb_ℤ v (pos 0))) (v ≢ pos 0)
Decides-given (pos zero) = inr (refl, λ n. n refl)
Decides-given (pos (suc n)) = inl (ground arith, λ e. cc)
Decides-given (negsuc n) = inl (ground arith, λ e. cc)

-- Some item of the list has the property.
abbrev pub Any {ℓ} : {A : Type ℓ} → (A → Type 0) → List A → Type 0
Any P [] = ⊥
Any P (x ∷ xs) = P x ⊎ Any P xs

pub is_among-Decides :
    (name : CStr) (names : List CStr) → Decides (is_among name names) (Any (λ f. name ≡ f) names)
unfolding is_among
is_among-Decides name [] = inr (refl, λ a. a)
is_among-Decides name (f ∷ names) = Decides-or (Decides-str_eq name f) (is_among-Decides name names)

pub has_string-Decides :
    (name : CStr) (list : List (Option CStr))
    → Decides (has_string name list) (Any (λ item. item ≡ some name) list)
unfolding has_string
has_string-Decides name [] = inr (refl, λ a. a)
has_string-Decides name (none ∷ list) =
    Decides-iff inr (λ s. elim s [ inl e ↦ absurd (some≢none (sym e)) | inr a ↦ a ])
      (has_string-Decides name list)
has_string-Decides name (some s ∷ list) =
    Decides-or (Decides-iff (λ e. ap some e) (λ e. some-inj e) (Decides-str_eq s name))
      (has_string-Decides name list)

-- `w`, `a` or `+`
abbrev IsWriteMode : ℕ → Type 0
IsWriteMode c = ((c ≡ 119) ⊎ (c ≡ 97)) ⊎ (c ≡ 43)

mode_writes-Decides : (mode : CStr) → Decides (mode_writes mode) (Any IsWriteMode mode)
unfolding mode_writes
mode_writes-Decides [] = inr (refl, λ a. a)
mode_writes-Decides (c ∷ mode) =
    Decides-or (Decides-or (Decides-or (Decides-eq c 119) (Decides-eq c 97)) (Decides-eq c 43))
      (mode_writes-Decides mode)

-- The second argument has the property.
abbrev OnSecond : (FuncParam → Type 0) → List FuncParam → Type 0
OnSecond P [] = ⊥
OnSecond P (a ∷ []) = ⊥
OnSecond P (a ∷ b ∷ params) = P b

-- A function has one name.
not_open :
    (name : CStr) → name ≡ codes "fopen" → ¬ ((name ≡ codes "open") ⊎ (name ≡ codes "openat"))
unfolding str_eq
not_open name e s = elim s [
  | inl o ↦ false≢true (ap (str_eq (codes "fopen")) (sym (sym e ∙ o)) ∙ str_eq_refl (codes "fopen"))
  | inr o ↦ false≢true (ap (str_eq (codes "fopen")) (sym (sym e ∙ o)) ∙ str_eq_refl (codes "fopen"))
]

module _ (text_at : ℤ → CStr) where
  -- A mode that is given, with a letter that writes.
  abbrev IsModeParam : FuncParam → Type 0
  IsModeParam fp = ((fp.modifiers % 2 ≡ 1) × (fp.val ≢ pos 0)) × Any IsWriteMode (text_at fp.val)

  -- The access mode in the two low bits of the flags is `O_WRONLY` or `O_RDWR`.
  abbrev IsFlagsParam : FuncParam → Type 0
  IsFlagsParam fp = (low_bits fp.val ≡ 1) ⊎ (low_bits fp.val ≡ 2)

  -- A function that always writes; `fopen` with such a mode; `open` or `openat` with such flags in
  -- its second argument.
  abbrev pub Writes : Call → Type 0
  Writes call =
      Any (λ f. call.func ≡ f) write_funcs
      ⊎ (((call.func ≡ codes "fopen") × OnSecond IsModeParam call.params)
          ⊎ (((call.func ≡ codes "open") ⊎ (call.func ≡ codes "openat"))
              × OnSecond IsFlagsParam call.params))

  module _ (content : ℕ → List (Option CStr)) (mem : Memory) (decoy_ok : Bool) where
    mode_param-Decides :
        (params : List FuncParam)
        → Decides
            (mode_param text_at content mem decoy_ok (second params))
            (OnSecond IsModeParam params)
    unfolding mode_param
    mode_param-Decides [] = inr (refl, λ a. a)
    mode_param-Decides (a ∷ []) = inr (refl, λ x. x)
    mode_param-Decides (a ∷ fp ∷ params) =
        Decides-and (Decides-and (Decides-eq (fp.modifiers % 2) 1) (Decides-given fp.val))
          (mode_writes-Decides (text_at fp.val))

    flags_param-Decides :
        (params : List FuncParam)
        → Decides
            (flags_param text_at content mem decoy_ok (second params))
            (OnSecond IsFlagsParam params)
    unfolding flags_param
    flags_param-Decides [] = inr (refl, λ a. a)
    flags_param-Decides (a ∷ []) = inr (refl, λ x. x)
    flags_param-Decides (a ∷ fp ∷ params) =
        Decides-or (Decides-eq (low_bits fp.val) 1) (Decides-eq (low_bits fp.val) 2)

    pub call_is_write-Decides :
        (call : Call) → Decides (call_is_write text_at content mem decoy_ok call) (Writes call)
    unfolding call_is_write
    call_is_write-Decides call = elim (is_among-Decides call.func write_funcs) [
      | inl (a, among) ↦ inl (rw a refl, inl among)
      | inr (a, other) ↦ elim (Decides-str_eq call.func (codes "fopen")) [
        | inl (f, fopen) ↦
            rw (a, f)
              (Decides-iff (λ m. inr (inl (fopen, m)))
                (λ w. elim w [
                  | inl among ↦ absurd (other among)
                  | inr (inl (_, m)) ↦ m
                  | inr (inr (o, _)) ↦ absurd (not_open call.func fopen o)
                ])
                (mode_param-Decides call.params))
        | inr (f, not_fopen) ↦
            elim (Decides-or (Decides-str_eq call.func (codes "open"))
              (Decides-str_eq call.func (codes "openat"))) [
                | inl (o, opened) ↦
                    rw (a, f, o)
                      (Decides-iff (λ m. inr (inr (opened, m)))
                        (λ w. elim w [
                          | inl among ↦ absurd (other among)
                          | inr (inl (fopen, _)) ↦ absurd (not_fopen fopen)
                          | inr (inr (_, m)) ↦ m
                        ])
                        (flags_param-Decides call.params))
                | inr (o, not_opened) ↦ inr (
                  rw (a, f, o) refl,
                  λ w. elim w [
                    | inl among ↦ other among
                    | inr (inl (fopen, _)) ↦ not_fopen fopen
                    | inr (inr (opened, _)) ↦ not_opened opened
                  ],
                )
              ]
      ]
    ]
