-- ===== src/Redact/Wildcards.antt =====
-- `glob_whole` of core/redact.c ends, and answers whether the token matches the pattern, in which `*`
-- takes any run and every other byte stands for itself.
use mathlib.Core.Bool.{false≢true}
use retrace.Prelude.{
  ℕ, ◌<◌, ◌≡◌, ◌≢◌, refl, sym, ap, ◌∙◌, subst, ◌↔◌, ◌⊎◌, inl, inr, Bool, true, false, some, List,
  [], ◌∷◌, ◌==◌, arith, CStr, length, All, Bool-cases, ==_iff,
}
use retrace.Glob.{Move, eat, star, miss, asterisk}
use retrace.Glob.Matching.{Matches}
use retrace.Glob.Deciding.{Answers-or, glob-Matches}
use retrace.Glob.Law.{Law}
use retrace.Redact.{move, glob_whole, is_hit}

pub data Literal : CStr → ℕ → CStr → Type 0 where
  same : {c : ℕ} {p : CStr} → c ≢ asterisk → Literal (c ∷ p) c p

abbrev Right : CStr → ℕ → Move → Type 0
Right p c (eat q) = Literal p c q
Right p c (star q) = p ≡ asterisk ∷ q
Right p c miss = Unit {0}

move-Right : (p : CStr) (c : ℕ) → Right p c (move p c)
unfolding move
move-Right [] c = tt
move-Right (x ∷ p) c = elim (Bool-cases (x == b'*')) [
  | inl e ↦ rw e (ap (λ z. z ∷ p) ((==_iff x b'*').0 e))
  | inr e ↦ elim (Bool-cases (x == c)) [
    | inl g ↦
        let not_star : c ≢ asterisk = ground arith in
        rw (e, g) (subst (λ z. Literal (z ∷ p) c p) (sym ((==_iff x c).0 g)) (same not_star))
    | inr g ↦ rw (e, g) tt
  ]
]

move-eat : (p : CStr) (c : ℕ) (q : CStr) → Literal p c q → move p c ≡ eat q
unfolding move
move-eat p c q (same h) = ground arith

Literal-shorter : (p : CStr) (c : ℕ) (q : CStr) → Literal p c q → length q < length p
Literal-shorter p c q (same h) = omega arith

tail : CStr → CStr
tail [] = []
tail (x ∷ p) = p

Literal-tail : (p : CStr) (c : ℕ) (q : CStr) → Literal p c q → q ≡ tail p
unfolding tail
Literal-tail p c q (same h) = refl

literal_law : Law move Literal (λ _. Unit {0})
unfolding move
literal_law = record {
  eat_sound = λ p c q _ e. subst (Right p c) e (move-Right p c);
  eat_complete = move-eat;
  star_shape = λ p c q _ e. subst (Right p c) e (move-Right p c);
  star_seen = λ q c _. refl;
  shorter = Literal-shorter;
  same_rest = λ p c d q r e f. Literal-tail p c q e ∙ sym (Literal-tail p d r f);
}

All-plain : (t : CStr) → All (λ _. Unit {0}) t
All-plain [] = tt
All-plain (c ∷ t) = (tt, All-plain t)

pub glob_whole-Matches :
    (tok pat : CStr)
    → (b : Bool) × (glob_whole tok pat ≡ some b) × ((b ≡ true) ↔ Matches Literal pat tok)
unfolding glob_whole
glob_whole-Matches tok pat =
    glob-Matches move Literal (λ _. Unit {0}) literal_law pat tok (All-plain tok)

-- The token matches one of the patterns.
abbrev pub Hit : List CStr → CStr → Type 0
Hit [] tok = ⊥
Hit (pat ∷ pats) tok = Matches Literal pat tok ⊎ Hit pats tok

pub is_hit-Hit :
    (pats : List CStr) (tok : CStr)
    → (b : Bool) × (is_hit pats tok ≡ some b) × ((b ≡ true) ↔ Hit pats tok)
unfolding is_hit
is_hit-Hit [] tok = (false, refl, (λ e. false≢true e, λ h. absurd h))
is_hit-Hit (pat ∷ pats) tok =
    Answers-or (Matches Literal pat tok) (Hit pats tok) (glob_whole tok pat) (is_hit pats tok)
      (glob_whole-Matches tok pat) (is_hit-Hit pats tok)
