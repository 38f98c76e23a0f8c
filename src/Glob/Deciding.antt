-- ===== src/Glob/Deciding.antt =====
-- The glob loop ends, and it answers whether the text matches the pattern.
use mathlib.Core.Bool.{false≢true}
use retrace.Prelude.{
  if◌then◌else◌, ℕ, zero, suc, ◌+◌, ◌*◌, ◌≤◌, ◌<◌, ◌≡◌, refl, sym, subst, ◌↔◌, ◌⊎◌, inl, inr, Bool,
  true, false, Option, none, some, [], ◌∷◌, arith, CStr, length, All,
}
use retrace.Glob.{
  asterisk, Move, eat, star, miss, Saved, Round, retry, only_stars, turn, loop, glob,
}
use retrace.Glob.Matching.{
  Matches, skip, take, one, Matches-Start, only_stars-Matches, Matches-only_stars,
}
use retrace.Glob.Law.{Law, no_eats, one_star, star_starts, star_at_end, drop_one}

-- The run ended, and its answer is that of `V`.
abbrev pub Answers : Type 0 → Option Bool → Type 0
Answers V r = (b : Bool) × (r ≡ some b) × ((b ≡ true) ↔ V)

pub Answers-iff : (V W : Type 0) (r : Option Bool) → (V → W) → (W → V) → Answers V r → Answers W r
Answers-iff V W r f g (b, e, h) = (b, e, (λ t. f (h.0 t), λ w. h.1 (g w)))

-- The second run is made where the first one answers no.
pub Answers-or :
    (V W : Type 0) (a b : Option Bool)
    → Answers V a
    → Answers W b
    → Answers (V ⊎ W) (elim a [ none ↦ none | some x ↦ if x then some true else b ])
Answers-or V W a b (true, e, (f, _)) k = rw e (true, refl, (λ _. inl (f refl), λ _. refl))
Answers-or V W a b (false, e, (_, g)) k =
    rw e (
      Answers-iff W (V ⊎ W) b inr (λ v. elim v [ inl x ↦ absurd (false≢true (g x)) | inr y ↦ y ]) k)

Move-cases : (m : Move) → ((q : CStr) × (m ≡ eat q)) ⊎ (((q : CStr) × (m ≡ star q)) ⊎ (m ≡ miss))
Move-cases (eat q) = inl (q, refl)
Move-cases (star q) = inr (inl (q, refl))
Move-cases miss = inr (inr refl)

module _ (move : CStr → ℕ → Move) (Eats : CStr → ℕ → CStr → Type 0) (Plain : ℕ → Type 0)
    (law : Law move Eats Plain) where
  open law use {eat_sound, eat_complete, star_shape, star_seen, shorter, same_rest}

  -- What the saved star can still find: a match of the pattern after it further on.
  abbrev Later : Saved → Type 0
  Later none = ⊥
  Later (some (bp, [])) = ⊥
  Later (some (bp, _ ∷ bt)) = Matches Eats (asterisk ∷ bp) bt

  abbrev Value : CStr → CStr → Saved → Type 0
  Value p t saved = Matches Eats p t ⊎ Later saved

  -- `m` bounds the text that is left to retry, and every pattern is shorter than `k`.
  abbrev Held : ℕ → ℕ → CStr → Saved → Type 0
  Held k m t none = Unit {0}
  Held k m t (some (bp, bt)) =
      All Plain bt × (length t ≤ length bt) × (length bt ≤ m) × (length bp < k)

  record Inv (k f m : ℕ) (p t : CStr) (saved : Saved) : Type 0 where
    plain : All Plain t
    held : Held k m t saved
    catch_up : Later saved → Matches Eats (asterisk ∷ p) t
    text_bound : length t ≤ m
    pattern_bound : length p < k
    fuel : m * k + length p < f

  -- Right after a star, or after a retry.
  Later-take : (q t : CStr) → Later (some (q, t)) → Matches Eats (asterisk ∷ q) t
  Later-take q [] m = elim m [ ]
  Later-take q (c ∷ t) m = take m

  Inv-star :
      (k f m : ℕ) (q t : CStr)
      → All Plain t
      → length t ≤ m
      → length q < k
      → m * k + length q < f
      → Inv k f m q t (some (q, t))
  Inv-star k f m q t h ht hq hf = record {
    plain = h;
    held = (h, omega arith, ht, hq);
    catch_up = Later-take q t;
    text_bound = ht;
    pattern_bound = hq;
    fuel = hf;
  }

  Held-shorter : (k m c : ℕ) (t : CStr) (saved : Saved) → Held k m (c ∷ t) saved → Held k m t saved
  Held-shorter k m c t none h = tt
  Held-shorter k m c t (some (bp, bt)) h = (h.0, omega arith, h.2, h.3)

  Inv-eat :
      (k f m : ℕ) (p : CStr) (c : ℕ) (q t : CStr) (saved : Saved)
      → Eats p c q
      → Inv k (suc f) m p (c ∷ t) saved
      → Inv k f m q t saved
  Inv-eat k f m p c q t saved e i = record {
    plain = i.plain.1;
    held = Held-shorter k m c t saved i.held;
    catch_up =
        λ l. drop_one move Eats Plain law p c q c t i.plain.0 e i.plain.0 i.plain.1 (i.catch_up l);
    text_bound = omega arith;
    pattern_bound = omega (arith, shorter p c q e);
    fuel = omega (arith, shorter p c q e);
  }

  -- One more byte of a star: the start of the text, or further on.
  Matches-Value :
      (q t : CStr) → Matches Eats (asterisk ∷ q) t → All Plain t → Value q t (some (q, t))
  Matches-Value q [] n h = inl (star_at_end move Eats Plain law q n)
  Matches-Value q (c ∷ t) n h = star_starts move Eats Plain law q c t h.0 n

  Value-ate :
      (p : CStr) (c : ℕ) (q t : CStr) (saved : Saved)
      → Eats p c q
      → Value q t saved
      → Value p (c ∷ t) saved
  Value-ate p c q t saved e (inl n) = inl (one e n)
  Value-ate p c q t saved e (inr l) = inr l

  Value-eat :
      (p : CStr) (c : ℕ) (q t : CStr) (saved : Saved)
      → Plain c
      → Eats p c q
      → Value p (c ∷ t) saved
      → Value q t saved
  Value-eat p c q t saved h e (inr l) = inr l
  Value-eat p c q t saved h e (inl n) = elim (Matches-Start Eats n) [
    | inl (r, e', n') ↦ inl (subst (λ x. Matches Eats x t) (same_rest p c c r q e' e) n')
    | inr (r, s, _) ↦ absurd (no_eats move Eats Plain law r c q h (subst (λ x. Eats x c q) s e))
  ]

  -- After a mismatch the saved star takes one more byte, which lowers `m` and pays for the pattern.
  retry-Answers :
      (k f m : ℕ) (p : CStr) (c : ℕ) (t : CStr) (saved : Saved) (next : Round)
      → ((m' : ℕ) (p' t' : CStr) (s' : Saved)
          → Inv k f m' p' t' s'
          → Answers (Value p' t' s') (next p' t' s'))
      → Inv k (suc f) m p (c ∷ t) saved
      → Answers (Later saved) (retry saved next)
  unfolding retry
  retry-Answers k f m p c t none next ih i = (false, refl, (λ h. false≢true h, λ l. absurd l))
  retry-Answers k f m p c t (some (bp, [])) next ih i = absurd (omega (arith, i.held.1))
  retry-Answers k f zero p c t (some (bp, x ∷ bt)) next ih i = absurd (omega (arith, i.held.2))
  retry-Answers k f (suc m) p c t (some (bp, x ∷ bt)) next ih i =
      Answers-iff (Value bp bt (some (bp, bt))) (Matches Eats (asterisk ∷ bp) bt) _
        (λ v. elim v [ inl n ↦ skip n | inr l ↦ Later-take bp bt l ])
        (λ n. Matches-Value bp bt n i.held.0.1)
        (ih m bp bt (some (bp, bt))
          (Inv-star k f m bp bt i.held.0.1 (omega (arith, i.held.2)) i.held.3 (omega arith)))

  star-Answers :
      (k f m : ℕ) (q : CStr) (c : ℕ) (t : CStr) (saved : Saved) (r : Option Bool)
      → Inv k (suc f) m (asterisk ∷ q) (c ∷ t) saved
      → Answers (Value q (c ∷ t) (some (q, c ∷ t))) r
      → Answers (Value (asterisk ∷ q) (c ∷ t) saved) r
  star-Answers k f m q c t saved r i =
      Answers-iff (Value q (c ∷ t) (some (q, c ∷ t))) (Value (asterisk ∷ q) (c ∷ t) saved) r
        (λ v. inl (elim v [ inl n ↦ skip n | inr l ↦ take l ]))
        (λ v. star_starts move Eats Plain law q c t i.plain.0 (elim v [
          | inl n ↦ n
          | inr l ↦ one_star move Eats Plain law q (c ∷ t) i.plain (i.catch_up l)
        ]))

  missed : (p : CStr) (c : ℕ) (t : CStr) → Plain c → move p c ≡ miss → ¬ Matches Eats p (c ∷ t)
  missed p c t h e n = elim (Matches-Start Eats n) [
    | inl (q, eats, _) ↦ let s = eat_complete p c q eats in cc
    | inr (q, s, _) ↦
        let m = star_seen q c h in let g : move (asterisk ∷ q) c ≡ miss = rw s at e in cc
  ]

  loop-Answers :
      (k f m : ℕ) (p t : CStr) (saved : Saved)
      → Inv k f m p t saved
      → Answers (Value p t saved) (loop move f p t saved)
  unfolding loop turn
  loop-Answers k zero m p t saved i = absurd (omega (arith, i.fuel))
  loop-Answers k (suc f) m p [] saved i = (
    only_stars p,
    refl,
    (
      λ h. inl (only_stars-Matches Eats p h),
      λ v.
          Matches-only_stars Eats
            (elim v [ inl n ↦ n | inr l ↦ star_at_end move Eats Plain law p (i.catch_up l) ]),
    ),
  )
  loop-Answers k (suc f) m p (c ∷ t) saved i = elim (Move-cases (move p c)) [
    | inl (q, e) ↦
        let eats = eat_sound p c q i.plain.0 e in
        rw (e, turn)
          (Answers-iff (Value q t saved) (Value p (c ∷ t) saved) _ (Value-ate p c q t saved eats)
            (Value-eat p c q t saved i.plain.0 eats)
            (loop-Answers k f m q t saved (Inv-eat k f m p c q t saved eats i)))
    | inr (inl (q, e)) ↦
        let shape = star_shape p c q i.plain.0 e in
        let i' : Inv k (suc f) m (asterisk ∷ q) (c ∷ t) saved =
          subst (λ x. Inv k (suc f) m x (c ∷ t) saved) shape i in
        rw (e, turn)
          (subst (λ x. Answers (Value x (c ∷ t) saved) (loop move f q (c ∷ t) (some (q, c ∷ t))))
            (sym shape)
            (star-Answers k f m q c t saved _ i' (
              loop-Answers k f m q (c ∷ t) (some (q, c ∷ t)) (
                Inv-star k f m q (c ∷ t) i'.plain i'.text_bound (omega (arith, i'.pattern_bound))
                  (omega (arith, i'.fuel))))))
    | inr (inr e) ↦
        rw (e, turn)
          (Answers-iff (Later saved) (Value p (c ∷ t) saved) _ inr
            (λ v. elim v [ inl n ↦ absurd (missed p c t i.plain.0 e n) | inr l ↦ l ])
            (retry-Answers k f m p c t saved (loop move f) (loop-Answers k f) i))
  ]

  -- From the start of the pattern and the text, with the fuel of `glob`.
  pub glob-Matches :
      (p t : CStr)
      → All Plain t
      → (b : Bool) × (glob move p t ≡ some b) × ((b ≡ true) ↔ Matches Eats p t)
  unfolding glob
  glob-Matches p t h =
      Answers-iff (Value p t none) (Matches Eats p t) _
        (λ v. elim v [ inl n ↦ n | inr l ↦ absurd l ]) inl
        (loop-Answers (length p + 1) _ (length t) p t none (record {
          plain = h;
          held = tt;
          catch_up = λ l. absurd l;
          text_bound = omega arith;
          pattern_bound = omega arith;
          fuel = omega arith;
        }))
