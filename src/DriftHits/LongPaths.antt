-- ===== src/DriftHits/LongPaths.antt =====
-- What happens to a path that does not fit a key.
use retrace.Prelude.{
  ℕ, ◌-◌, ◌≤◌, ◌<◌, ◌≡◌, refl, ap, false, Option, List, [], ◌∷◌, arith, length, length-take, All,
  All-set, All-replicate, CStr, str_eq, str_eq→≡, Bool-cases, inl, inr,
}
use retrace.Prelude.Int.{ℤ}
use retrace.DriftHits.{
  Key, State, claim_ring, hit_ring, claim_window_s, hit_dedup_s, path_max_len, zero_key, or_empty,
  key_copy, same_key, counts, any_recent, claim, reset, is_unnamed, add_hit, observe,
}

abbrev IsCut : Key → Type 0
IsCut k = length k.path < path_max_len

-- Every stored path is shorter than its buffer.
pub record Stored (s : State) : Type 0 where
  pub claims : All IsCut s.claims
  pub hits : All IsCut s.hits

key_copy-IsCut : (pid : ℤ) (op path : Option CStr) (t : ℕ) → IsCut (key_copy pid op path t)
unfolding key_copy
key_copy-IsCut pid op path t = ground (arith, length-take (path_max_len - 1) (or_empty path))

Stored-reset : Stored reset
unfolding reset
Stored-reset = record {
  claims = All-replicate IsCut claim_ring zero_key (ground arith);
  hits = All-replicate IsCut hit_ring zero_key (ground arith);
}

-- The calls that other parts of the daemon make.
pub data Call : Type 0 where
  claims : ℤ → Option CStr → Option CStr → ℕ → Call
  observes : ℤ → Option CStr → Option CStr → ℕ → Call

abbrev pub call : Call → State → State
call (claims pid op path t) s = claim pid op path t s
call (observes pid op path t) s = (observe pid op path t s).1

-- The state after a list of calls.
abbrev pub after : List Call → State → State
after [] s = s
after (c ∷ cs) s = after cs (call c s)

Stored-add_hit :
    (pid : ℤ) (op path : Option CStr) (t : ℕ) (s : State)
    → Stored s
    → Stored (add_hit pid op path t s)
unfolding add_hit
Stored-add_hit pid op path t s v = record {
  claims = v.claims;
  hits =
      All-set IsCut s.hits s.hits_next (key_copy pid op path t) v.hits
        (key_copy-IsCut pid op path t);
}

Stored-observe :
    (pid : ℤ) (op path : Option CStr) (t : ℕ) (s : State)
    → Stored s
    → Stored (observe pid op path t s).1
unfolding observe
Stored-observe pid op path t s v = elim (Bool-cases (is_unnamed path)) [
  | inl e ↦ rw (observe, e) v
  | inr e ↦ elim (Bool-cases (any_recent claim_window_s s.claims pid op path t)) [
    | inl c ↦ rw (observe, e, c) v
    | inr c ↦ elim (Bool-cases (any_recent hit_dedup_s s.hits pid op path t)) [
      | inl h ↦ rw (observe, e, c, h) v
      | inr h ↦ rw (observe, e, c, h) (Stored-add_hit pid op path t s v)
    ]
  ]
]

Stored-call : (c : Call) (s : State) → Stored s → Stored (call c s)
unfolding claim
Stored-call (claims pid op path t) s v = record {
  claims =
      All-set IsCut s.claims s.claims_next (key_copy pid op path t) v.claims
        (key_copy-IsCut pid op path t);
  hits = v.hits;
}
Stored-call (observes pid op path t) s v = Stored-observe pid op path t s v

Stored-after : (cs : List Call) (s : State) → Stored s → Stored (after cs s)
Stored-after [] s v = v
Stored-after (c ∷ cs) s v = Stored-after cs (call c s) (Stored-call c s v)

module _ (pid : ℤ) (op path : Option CStr) (now : ℕ)
    (long : path_max_len ≤ length (or_empty path)) where
  counts-long : (span : ℕ) (c : Key) → IsCut c → counts span c pid op path now ≡ false
  unfolding counts same_key
  counts-long span c h =
      let differs : str_eq c.path (or_empty path) ≡ false =
        elim (Bool-cases (str_eq c.path (or_empty path))) [
          | inl e ↦ absurd (omega (arith, ap length (str_eq→≡ c.path (or_empty path) e)))
          | inr e ↦ e
        ] in
      elim (Bool-cases (str_eq c.op (or_empty op))) [
        | inl e ↦ ground (arith, e, differs)
        | inr e ↦ ground (arith, e)
      ]

  any_recent-long :
      (span : ℕ) (cs : List Key) → All IsCut cs → any_recent span cs pid op path now ≡ false
  unfolding any_recent
  any_recent-long span [] h = refl
  any_recent-long span (c ∷ cs) h = rw (counts-long span c h.0) (any_recent-long span cs h.1)

  long-IsNamed : is_unnamed path ≡ false
  long-IsNamed = elim (Bool-cases (is_unnamed path)) [
    | inl e ↦ absurd (omega (arith, ap length (str_eq→≡ (or_empty path) [] e)))
    | inr e ↦ e
  ]

  -- A path of 192 bytes or more is reported at every observation, whatever was claimed or reported
  -- before: after any calls since the reset, an observation of it returns 1.
  pub observe-long : (cs : List Call) → (observe pid op path now (after cs reset)).0 ≡ 1
  unfolding observe
  observe-long cs =
      let v = Stored-after cs reset Stored-reset in
      rw
        (
          observe,
          long-IsNamed,
          any_recent-long claim_window_s (after cs reset).claims v.claims,
          any_recent-long hit_dedup_s (after cs reset).hits v.hits,
        )
        refl
