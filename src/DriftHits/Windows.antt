-- ===== src/DriftHits/Windows.antt =====
-- A claim covers, and a hit silences, what has the same key while the window lasts.
use native.Mathlib.Nat.{mod-add-mod}
use retrace.Prelude.{
  ℕ, zero, suc, ◌+◌, ◌-◌, ◌%◌, ◌≤◌, ◌<◌, ◌≡◌, ◌≢◌, refl, ap, ◌∙◌, true, false, Option, List, [],
  ◌∷◌, arith, ltb, ◌==◌, length, get_or, length-set, get_or-set_self, get_or-set_ne, take, CStr,
  str_eq_refl, Bool-cases, inl, inr,
}
use retrace.Prelude.Cyclic.{around-ne}
use retrace.Prelude.Int.{ℤ}
use retrace.DriftHits.{
  Key, State, claim_ring, hit_ring, claim_window_s, hit_dedup_s, op_max, path_max_len, zero_key,
  or_empty, key_copy, other_pid, same_key, counts, any_recent, claim, is_unnamed, add_hit, observe,
}

-- The strings of a call that are stored whole.
abbrev Fits : Option CStr → Option CStr → Type 0
Fits op path = (length (or_empty op) < op_max) × (length (or_empty path) < path_max_len)

-- The rings have their sizes, and the next cells are cells.
pub record IsValid (s : State) : Type 0 where
  pub claims_size : length s.claims ≡ claim_ring
  pub hits_size : length s.hits ≡ hit_ring
  pub claims_in : s.claims_next < claim_ring
  pub hits_in : s.hits_next < hit_ring

take_all : (n : ℕ) (s : CStr) → length s ≤ n → take n s ≡ s
take_all zero [] h = refl
take_all (suc n) [] h = refl
take_all zero (c ∷ s) h = absurd (omega arith)
take_all (suc n) (c ∷ s) h = ap (λ t. c ∷ t) (take_all n s (omega arith))

-- A key that was copied whole is the same key for its own strings, and for a pid that is no other.
same_key-copy :
    (pid pid' : ℤ) (op path : Option CStr) (t : ℕ)
    → Fits op path
    → other_pid pid' pid ≡ false
    → same_key (key_copy pid op path t) pid' op path ≡ true
unfolding same_key key_copy
same_key-copy pid pid' op path t h p =
    rw
      (
        take_all (op_max - 1) (or_empty op) (omega (arith, h.0)),
        take_all (path_max_len - 1) (or_empty path) (omega (arith, h.1)),
        str_eq_refl (or_empty op),
        str_eq_refl (or_empty path),
        p,
      )
      refl

any_recent_of :
    (span : ℕ) (cs : List Key) (i : ℕ) (d : Key) (pid : ℤ) (op path : Option CStr) (now : ℕ)
    → i < length cs
    → counts span (get_or cs i d) pid op path now ≡ true
    → any_recent span cs pid op path now ≡ true
unfolding any_recent
any_recent_of span [] i d pid op path now h e = absurd (omega arith)
any_recent_of span (c ∷ cs) zero d pid op path now h e = rw e refl
any_recent_of span (c ∷ cs) (suc i) d pid op path now h e =
    elim (Bool-cases (counts span c pid op path now)) [
      | inl m ↦ rw m refl
      | inr m ↦ rw m (any_recent_of span cs i d pid op path now (omega arith) e)
    ]

-- A copied key counts for the span.
counts-copy :
    (span : ℕ) (pid pid' : ℤ) (op path : Option CStr) (t now : ℕ)
    → Fits op path
    → other_pid pid' pid ≡ false
    → t ≢ 0
    → now ≤ t + span
    → counts span (key_copy pid op path t) pid' op path now ≡ true
unfolding counts key_copy
counts-copy span pid pid' op path t now f p nz late =
    let same = same_key-copy pid pid' op path t f p in
    let stamped : (t == 0) ≡ false = ground arith in
    let young : ltb (t + span) now ≡ false = ground arith in rw (stamped, young) same

-- A claim as `retrace_drift_claim` gets it, with its time.
pub record Claim : Type 0 where
  pub pid : ℤ
  pub op : Option CStr
  pub path : Option CStr
  pub time : ℕ

-- The claims of a list, one after the other.
abbrev pub claim_all : List Claim → State → State
claim_all [] s = s
claim_all (c ∷ cs) s = claim_all cs (claim c.pid c.op c.path c.time s)

claim_all-claims :
    (cs : List Claim) (s : State) (p m : ℕ) (k : Key)
    → p < claim_ring
    → 0 < m
    → m + length cs ≤ claim_ring
    → s.claims_next ≡ (p + m) % claim_ring
    → get_or s.claims p zero_key ≡ k
    → (get_or (claim_all cs s).claims p zero_key ≡ k)
      × (length (claim_all cs s).claims ≡ length s.claims)
unfolding claim
claim_all-claims [] s p m k hp hm room e h = (h, refl)
claim_all-claims (c ∷ cs) s p m k hp hm room e h =
    let s' = claim c.pid c.op c.path c.time s in
    let key = key_copy c.pid c.op c.path c.time in
    let away : s.claims_next ≢ p = rw e (around-ne claim_ring p m hp hm (omega arith)) in
    let next : s'.claims_next ≡ (p + (m + 1)) % claim_ring =
      ap (λ n. (n + 1) % claim_ring) e
      ∙ mod-add-mod (p + m) claim_ring 1
      ∙ ap (λ n. n % claim_ring) {x = p + m + 1} {y = p + (m + 1)} (omega arith) in
    let (a, b) =
      claim_all-claims cs s' p (m + 1) k hp (omega arith) (omega arith) next
        (get_or-set_ne s.claims s.claims_next p key zero_key away ∙ h) in
    (a, b ∙ length-set s.claims s.claims_next key)

-- In a valid state, a claim whose strings are stored whole covers the same operation, by the same
-- process or by one that is not known, through fewer than 128 further claims and until 5 seconds
-- after its time: the observation reports nothing and changes nothing.
pub observe-claimed :
    (s : State) (c : Claim) (cs : List Claim) (pid : ℤ) (now : ℕ)
    → IsValid s
    → Fits c.op c.path
    → other_pid pid c.pid ≡ false
    → c.time ≢ 0
    → now ≤ c.time + claim_window_s
    → length cs < claim_ring
    → let s' = claim_all (c ∷ cs) s in observe pid c.op c.path now s' ≡ (0, s')
unfolding observe claim
observe-claimed s c cs pid now v f p nz late few =
    let key = key_copy c.pid c.op c.path c.time in
    let s1 = claim c.pid c.op c.path c.time s in
    let s' = claim_all cs s1 in
    let (kept, size) =
      claim_all-claims cs s1 s.claims_next 1 key v.claims_in (omega arith) (omega arith) refl (
        get_or-set_self s.claims s.claims_next key zero_key
          (omega (arith, v.claims_size, v.claims_in))) in
    let sized : length s'.claims ≡ claim_ring =
      size ∙ length-set s.claims s.claims_next key ∙ v.claims_size in
    let covered : any_recent claim_window_s s'.claims pid c.op c.path now ≡ true =
      any_recent_of claim_window_s s'.claims s.claims_next zero_key pid c.op c.path now
        (omega (arith, sized, v.claims_in))
        (rw kept (counts-copy claim_window_s c.pid pid c.op c.path c.time now f p nz late)) in
    elim (Bool-cases (is_unnamed c.path)) [
      | inl e ↦ rw (observe, e) refl
      | inr e ↦ rw (observe, e, covered) refl
    ]

-- In a valid state, an operation whose strings are stored whole is reported at most once in 15
-- seconds: what follows an observation of it, by the same process or by one that is not known,
-- reports nothing and changes nothing.
observe_again :
    (s : State) (pid pid' : ℤ) (op path : Option CStr) (t now : ℕ)
    → IsValid s
    → Fits op path
    → other_pid pid' pid ≡ false
    → t ≢ 0
    → now ≤ t + hit_dedup_s
    → (observe pid op path t s).0 ≡ 1
    → let s' = (observe pid op path t s).1 in observe pid' op path now s' ≡ (0, s')
unfolding observe add_hit
observe_again s pid pid' op path t now v f p nz late reported =
    let key = key_copy pid op path t in
    elim (Bool-cases (is_unnamed path)) [
      | inl e ↦ absurd (ground (arith, rw (observe, e) at reported))
      | inr e ↦ elim (Bool-cases (any_recent claim_window_s s.claims pid op path t)) [
        | inl c ↦ absurd (ground (arith, rw (observe, e, c) at reported))
        | inr c ↦ elim (Bool-cases (any_recent hit_dedup_s s.hits pid op path t)) [
          | inl h ↦ absurd (ground (arith, rw (observe, e, c, h) at reported))
          | inr h ↦
              let s' = add_hit pid op path t s in
              let stored : observe pid op path t s ≡ (1, s') = rw (observe, e, c, h) refl in
              let silent : any_recent hit_dedup_s s'.hits pid' op path now ≡ true =
                any_recent_of hit_dedup_s s'.hits s.hits_next zero_key pid' op path now
                  (omega (arith, length-set s.hits s.hits_next key, v.hits_size, v.hits_in))
                  (rw
                    (get_or-set_self s.hits s.hits_next key zero_key
                      (omega (arith, v.hits_size, v.hits_in)))
                    (counts-copy hit_dedup_s pid pid' op path t now f p nz late)) in
              rw stored (elim (Bool-cases (any_recent claim_window_s s'.claims pid' op path now)) [
                | inl d ↦ rw (observe, e, d) refl
                | inr d ↦ rw (observe, e, d, silent) refl
              ])
        ]
      ]
    ]
