-- ===== src/CallHash/Threads.antt =====
-- The hash of a thread is that of its own calls, in their order.
use retrace.Prelude.{
  ℕ, zero, suc, ◌<◌, ◌≡◌, ◌≢◌, refl, sym, ap, ◌∙◌, true, false, Option, none, some, List, [], ◌∷◌,
  ◌++◌, arith, ◌==◌, length, length-append, length-set, get_or, get_or-set_self, get_or-set_ne, set,
  CStr, Bool-cases, Option-cases, inl, inr, ◌⊎◌,
}
use retrace.Prelude.Int.{ℤ}
use retrace.CallHash.{
  ThreadHash, State, new_hash, fnv_offset, thread_hash_get, with_key, mix_call, store_call,
  store_in, observe,
}

-- Every key is the index of a node, and no two threads share one.
pub record IsValid (s : State) : Type 0 where
  pub inside : (t i : ℕ) → s.keys t ≡ some i → i < length s.nodes
  pub apart : (t u i : ℕ) → s.keys t ≡ some i → s.keys u ≡ some i → t ≡ u

-- The hash that a thread has so far.
unfoldable pub hash_of : State → ℕ → ℕ
hash_of s t = elim (s.keys t) [ none ↦ fnv_offset | some i ↦ (get_or s.nodes i new_hash).hash ]

-- The call of thread `t` was mixed into its hash, which is published, and into no other thread's.
pub record Observed (s s' : State) (t : ℕ) (func : CStr) (n : ℤ) : Type 0 where
  pub own : hash_of s' t ≡ mix_call func n (hash_of s t)
  pub published : s'.last ≡ hash_of s' t
  pub others : (u : ℕ) → u ≢ t → hash_of s' u ≡ hash_of s u
  pub valid : IsValid s'
  pub stays_on : s'.enabled ≡ s.enabled

module _ (t : ℕ) (func : CStr) (n : ℤ) where
  other_node :
      (s : State) (v : IsValid s) (i u : ℕ) (b : ThreadHash)
      → s.keys t ≡ some i
      → u ≢ t
      → (k : Option ℕ) → s.keys u ≡ k
      → hash_of
          (record { enabled = s.enabled; nodes = set s.nodes i b; keys = s.keys; last = b.hash })
          u
        ≡ hash_of s u
  unfolding hash_of
  other_node s v i u b e ne none f = rw (hash_of, f) refl
  other_node s v i u b e ne (some k) f =
      let differ : i ≢ k = λ q. ne (v.apart u t k f (e ∙ ap some q)) in
      rw (hash_of, f)
        (ap (λ (x : ThreadHash). x.hash) (get_or-set_ne s.nodes i k b new_hash differ))

  store_lem :
      (s : State) (i : ℕ)
      → IsValid s
      → s.keys t ≡ some i
      → Observed s (store_call i func n s) t func n
  unfolding store_call hash_of
  store_lem s i v e =
      let b : ThreadHash = record {
        hash = mix_call func n (get_or s.nodes i new_hash).hash;
        observed = true;
      } in
      let put = get_or-set_self s.nodes i b new_hash (v.inside t i e) in
      record {
        own = rw (hash_of, e) (ap (λ (x : ThreadHash). x.hash) put);
        published = rw (hash_of, e) (sym (ap (λ (x : ThreadHash). x.hash) put));
        others = λ u ne. other_node s v i u b e ne (s.keys u) refl;
        valid = record {
          inside = λ u k f. omega (arith, v.inside u k f, length-set s.nodes i b);
          apart = v.apart;
        };
        stays_on = refl;
      }

  -- The state in which a thread has got its first node.
  abbrev joined : State → State
  joined s = record {
    enabled = s.enabled;
    nodes = s.nodes ++ new_hash ∷ [];
    keys = with_key t (length s.nodes) s.keys;
    last = s.last;
  }

  own_key : (s : State) → (joined s).keys t ≡ some (length s.nodes)
  own_key s = let same : (t == t) ≡ true = ground arith in rw same refl

  other_key : (s : State) (u : ℕ) → u ≢ t → (joined s).keys u ≡ s.keys u
  other_key s u ne = let differ : (u == t) ≡ false = ground arith in rw differ refl

  get_or-append :
      (es : List ThreadHash) (i : ℕ) (e : ThreadHash)
      → i < length es
      → get_or (es ++ e ∷ []) i new_hash ≡ get_or es i new_hash
  get_or-append [] i e h = absurd (omega arith)
  get_or-append (x ∷ es) zero e h = refl
  get_or-append (x ∷ es) (suc i) e h = get_or-append es i e (omega arith)

  get_or-append_last :
      (es : List ThreadHash) (e : ThreadHash) → get_or (es ++ e ∷ []) (length es) new_hash ≡ e
  get_or-append_last [] e = refl
  get_or-append_last (x ∷ es) e = get_or-append_last es e

  joined-hash : (s : State) → s.keys t ≡ none → hash_of (joined s) t ≡ hash_of s t
  unfolding hash_of
  joined-hash s e =
      let same : (t == t) ≡ true = ground arith in
      rw (hash_of, e, same) (ap (λ (x : ThreadHash). x.hash) (get_or-append_last s.nodes new_hash))

  joined-others : (s : State) (v : IsValid s) (u : ℕ) → u ≢ t → hash_of (joined s) u ≡ hash_of s u
  unfolding hash_of
  joined-others s v u ne = elim (Option-cases (s.keys u)) [
    | inl f ↦ rw (hash_of, other_key s u ne, f) refl
    | inr (k, f) ↦
        rw (hash_of, other_key s u ne, f)
          (ap (λ (x : ThreadHash). x.hash) (get_or-append s.nodes k new_hash (v.inside u k f)))
  ]

  joined-cases :
      (s : State) (u i : ℕ)
      → (joined s).keys u ≡ some i
      → ((u ≡ t) × (i ≡ length s.nodes)) ⊎ (s.keys u ≡ some i)
  joined-cases s u i f = elim (Bool-cases (u == t)) [
    | inl q ↦
        let at : some (length s.nodes) ≡ some i = rw q at f in
        inl (ground arith, ground (arith, at))
    | inr q ↦ inr (rw q at f)
  ]

  joined-IsValid : (s : State) → IsValid s → IsValid (joined s)
  joined-IsValid s v = record {
    inside = λ u i f.
        let size = length-append s.nodes (new_hash ∷ []) in
        elim (joined-cases s u i f) [
          | inl (_, q) ↦ omega (arith, q, size)
          | inr g ↦ omega (arith, v.inside u i g, size)
        ];
    apart = λ u w i f g. elim (joined-cases s u i f) [
      | inl (a, p) ↦ elim (joined-cases s w i g) [
        | inl (b, _) ↦ a ∙ sym b
        | inr b ↦ absurd (omega (arith, v.inside w i b, p))
      ]
      | inr a ↦ elim (joined-cases s w i g) [
        | inl (_, p) ↦ absurd (omega (arith, v.inside u i a, p))
        | inr b ↦ v.apart u w i a b
      ]
    ];
  }

  opened :
      (s : State)
      → s.enabled ≡ true
      → observe t true true (some func) n s ≡ store_in (thread_hash_get t true true s) func n
  unfolding observe
  opened s on = rw (observe, on) refl

  -- With memory, and with the hash enabled, an observed call mixes into the hash of its thread, which
  -- is published, and into no other thread's, whether the thread had a node or gets its first one.
  pub observe-Observed :
      (s : State)
      → IsValid s
      → s.enabled ≡ true
      → Observed s (observe t true true (some func) n s) t func n
  unfolding thread_hash_get store_in
  observe-Observed s v on = elim (Option-cases (s.keys t)) [
    | inr (i, e) ↦
        let known : thread_hash_get t true true s ≡ (some i, s) = rw (thread_hash_get, e) refl in
        let done : observe t true true (some func) n s ≡ store_call i func n s =
          opened s on ∙ ap (λ g. store_in g func n) known in
        rw done (store_lem s i v e)
    | inl e ↦
        let got : thread_hash_get t true true s ≡ (some (length s.nodes), joined s) =
          rw (thread_hash_get, e) refl in
        let done : observe t true true (some func) n s
            ≡ store_call (length s.nodes) func n (joined s) =
          opened s on ∙ ap (λ g. store_in g func n) got in
        let p = store_lem (joined s) (length s.nodes) (joined-IsValid s v) (own_key s) in
        rw done (record {
          own = p.own ∙ ap (mix_call func n) (joined-hash s e);
          published = p.published;
          others = λ u ne. p.others u ne ∙ joined-others s v u ne;
          valid = p.valid;
          stays_on = p.stays_on;
        })
  ]
