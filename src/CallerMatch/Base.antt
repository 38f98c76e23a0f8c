-- ===== src/CallerMatch/Base.antt =====
-- What `path_basename` returns.
use mathlib.Core.List.{append_assoc, append-nil}
use retrace.Prelude.{
  ℕ, ◌≡◌, ◌≢◌, refl, sym, ap, ◌∙◌, subst, [], ◌∷◌, ◌++◌, arith, ◌==◌, CStr, All, All-append,
  Bool-cases, ◌⊎◌, inl, inr,
}
use retrace.CallerMatch.{basename_from, path_basename}

abbrev pub HasNoSlash : CStr → Type 0
HasNoSlash = All (λ c. c ≢ b'/')

-- `base` is the part of `path` behind its last slash, or all of it if it has none.
pub record IsBase (path base : CStr) : Type 0 where
  pub dir : CStr
  pub split : path ≡ dir ++ base
  pub no_slash : HasNoSlash base
  pub dir_ends : (dir ≡ []) ⊎ ((up : CStr) × (dir ≡ up ++ b'/' ∷ []))

extend : (q p base : CStr) (c : ℕ) → c ≡ b'/' → IsBase p base → IsBase (q ++ c ∷ p) base
extend q p base c e b = record {
  dir = q ++ c ∷ b.dir;
  split = ap (λ l. q ++ c ∷ l) b.split ∙ sym (append_assoc q (c ∷ b.dir) base);
  no_slash = b.no_slash;
  dir_ends = elim b.dir_ends [
    | inl none ↦ inr (q, ap (λ l. q ++ c ∷ l) none ∙ ap (λ d. q ++ d ∷ []) e)
    | inr (up, f) ↦
        inr (q ++ c ∷ up, ap (λ l. q ++ c ∷ l) f ∙ sym (append_assoc q (c ∷ up) (b'/' ∷ [])))
  ];
}

basename_from-IsBase : (p q : CStr) → HasNoSlash q → IsBase (q ++ p) (basename_from p (q ++ p))
unfolding basename_from
basename_from-IsBase [] q h = record {
  dir = [];
  split = refl;
  no_slash = subst HasNoSlash (sym (append-nil q)) h;
  dir_ends = inl refl;
}
basename_from-IsBase (c ∷ p) q h = elim (Bool-cases (c == b'/')) [
  | inl e ↦ rw e (extend q p (basename_from p p) c (ground arith) (basename_from-IsBase p [] tt))
  | inr e ↦
      let shift : (q ++ c ∷ []) ++ p ≡ q ++ c ∷ p = append_assoc q (c ∷ []) p in
      rw e (
        subst (λ s. IsBase s (basename_from p s)) shift
          (basename_from-IsBase p (q ++ c ∷ []) (All-append _ q (c ∷ []) h (ground arith, tt))))
]

-- `path_basename` returns what follows the last slash of the path, or the whole path.
pub path_basename-IsBase : (path : CStr) → IsBase path (path_basename path)
unfolding path_basename
path_basename-IsBase path = basename_from-IsBase path [] tt
