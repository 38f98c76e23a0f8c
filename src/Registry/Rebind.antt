-- ===== src/Registry/Rebind.antt =====
-- A HELLO binds an agent to its entry: the same one each time, if the id fits the entry.
use retrace.Prelude.{
  get_or-set_self, ℕ, zero, suc, ◌+◌, ◌-◌, ◌≤◌, ◌<◌, ◌≡◌, refl, ap, ◌∙◌, false, none, some, List,
  [], ◌∷◌, ◌++◌, arith, leb, length, length-append, length-set, length-take, get_or, fit, All,
  All-append, CStr, str_eq, str_eq_refl, str_eq→≡, Bool-cases, Option-cases, inl, inr, ◌⊎◌,
}
use retrace.Prelude.Int.{ℤ, pos, negsuc}
use retrace.Registry.{Registry, find_in, find, update, Hello, new_entry, bind, bye, heartbeat}
use retrace.Registry.Entry.{
  registry_max, agent_id_max, live, gone, AgentEntry, no_agent, with_state, with_heartbeat,
}
use retrace.Registry.Find.{find_in-some, find_in-update, find_in-append, get_or-append, take_all}

-- The agent stands live at this index, which is where its id is found.
pub record Bound (id : CStr) (i : ℕ) (r : Registry) : Type 0 where
  pub at : find r (some id) ≡ some i
  pub state : (get_or r.agents i no_agent).state ≡ live

module _ (id : CStr) (h : Hello) (r : Registry) where
  -- A known agent keeps its entry: the table keeps its size, and every id is found where it was.
  bind-known :
      (i : ℕ)
      → find r (some id) ≡ some i
      → (bind id h r ≡ (some i, update i (with_state live) r)) × Bound id i (bind id h r).1
  unfolding bind find
  bind-known i e =
      let inside = find_in-some r.agents id i e in
      let done : bind id h r ≡ (some i, update i (with_state live) r) = rw (bind, e) refl in
      (
        done,
        rw done (record {
          at = find_in-update (with_state live) (λ x. refl) r.agents i id ∙ e;
          state =
              ap (λ (x : AgentEntry). x.state)
                (get_or-set_self r.agents i (with_state live (get_or r.agents i no_agent)) no_agent
                  inside.0);
        }),
      )

  bind-new :
      find r (some id) ≡ none
      → length r.agents < registry_max
      → bind id h r ≡ (
        some (length r.agents),
        record { agents = r.agents ++ new_entry id h ∷ []; id_counter = r.id_counter },
      )
  unfolding bind
  bind-new e room =
      let full : leb registry_max (length r.agents) ≡ false = ground arith in
      rw (bind, e, full) refl

  -- A HELLO with an id that fits an entry, where the agent is known or the table has room, binds the
  -- agent: it returns the index at which the id is found from then on, and the entry there is live.
  pub bind-Bound :
      length id < agent_id_max
      → length r.agents < registry_max
      → (i : ℕ) × ((bind id h r).0 ≡ some i) × Bound id i (bind id h r).1
  unfolding bind find
  bind-Bound fits room = elim (Option-cases (find r (some id))) [
    | inr (i, e) ↦ let (done, b) = bind-known i e in (i, ap (λ x. x.0) done, b)
    | inl e ↦
        let done = bind-new e room in
        let whole : fit agent_id_max id ≡ id = take_all (agent_id_max - 1) id (omega arith) in
        (
          length r.agents,
          ap (λ x. x.0) done,
          rw done (record {
            at = find_in-append r.agents (new_entry id h) id e (rw whole (str_eq_refl id));
            state = ap (λ (x : AgentEntry). x.state) (get_or-append r.agents (new_entry id h));
          }),
        )
  ]

-- The state after `n` HELLOs of one agent.
abbrev pub hellos : ℕ → CStr → Hello → Registry → Registry
hellos zero id h r = r
hellos (suc n) id h r = hellos n id h (bind id h r).1

module _ (id : CStr) (h : Hello) where
  hellos-known :
      (n : ℕ) (r : Registry) (i : ℕ)
      → Bound id i r
      → Bound id i (hellos n id h r) × (length (hellos n id h r).agents ≡ length r.agents)
  hellos-known zero r i b = (b, refl)
  hellos-known (suc n) r i b =
      let (done, again) = bind-known id h r i b.at in
      let (last, size) = hellos-known n (bind id h r).1 i again in
      (
        last,
        size
            ∙ ap (λ x. length x.1.agents) done
            ∙ length-set r.agents i (with_state live (get_or r.agents i no_agent)),
      )

  -- Reconnecting: `n` further HELLOs of an agent whose id fits an entry leave it at the index of the
  -- first one, and the table at its size.
  pub hellos-rebind :
      (n : ℕ) (r : Registry)
      → length id < agent_id_max
      → length r.agents < registry_max
      → (i : ℕ) × ((bind id h r).0 ≡ some i)
        × Bound id i (hellos (suc n) id h r)
        × (length (hellos (suc n) id h r).agents ≡ length (bind id h r).1.agents)
  hellos-rebind n r fits room =
      let (i, at, b) = bind-Bound id h r fits room in
      let (last, size) = hellos-known n (bind id h r).1 i b in (i, at, last, size)

  abbrev IsCut : AgentEntry → Type 0
  IsCut e = length e.id < agent_id_max

  new_entry-IsCut : IsCut (new_entry id h)
  new_entry-IsCut = ground (arith, length-take (agent_id_max - 1) id)

  module _ (long : agent_id_max ≤ length id) where
    find_in-long : (es : List AgentEntry) → All IsCut es → find_in es id ≡ none
    unfolding find_in
    find_in-long [] c = refl
    find_in-long (e ∷ es) c =
        let differs : str_eq e.id id ≡ false = elim (Bool-cases (str_eq e.id id)) [
          | inl m ↦ absurd (omega (arith, c.0, ap length (str_eq→≡ e.id id m)))
          | inr m ↦ m
        ] in
        rw (find_in, differs, find_in-long es c.1) refl

    -- An agent whose id does not fit an entry is not found again: in a table whose ids fit, each of
    -- its HELLOs takes a new entry, as long as there is room.
    pub hellos-long :
        (n : ℕ) (r : Registry)
        → All (λ (e : AgentEntry). length e.id < agent_id_max) r.agents
        → n + length r.agents ≤ registry_max
        → length (hellos n id h r).agents ≡ n + length r.agents
    unfolding find
    hellos-long zero r c room = omega arith
    hellos-long (suc n) r c room =
        let r' : Registry = record {
          agents = r.agents ++ new_entry id h ∷ [];
          id_counter = r.id_counter;
        } in
        let done : (bind id h r).1 ≡ r' =
          ap (λ x. x.1) (bind-new id h r (find_in-long r.agents c) (omega arith)) in
        let size : length r'.agents ≡ suc (length r.agents) =
          omega (arith, length-append r.agents (new_entry id h ∷ [])) in
        let cut = All-append IsCut r.agents (new_entry id h ∷ []) c (new_entry-IsCut, tt) in
        ap (λ x. length (hellos n id h x).agents) done
        ∙ omega (arith, hellos-long n r' cut (omega (arith, size)), size)

-- A heartbeat of a known agent revives its entry with the new time and sequence number and is
-- answered by 0; a BYE marks the entry as gone. Neither changes another entry or where ids are
-- found; of an agent that is not known, the one answers -1 and both leave the table.
pub heartbeat-bye :
    (id : CStr) (seq : ℕ) (now : ℤ) (r : Registry)
    → ((find r (some id) ≡ none)
        × (heartbeat (some id) seq now r ≡ (negsuc 0, r))
        × (bye (some id) r ≡ r))
      ⊎ ((i : ℕ) × (find r (some id) ≡ some i)
          × (heartbeat (some id) seq now r ≡ (pos 0, update i (with_heartbeat seq now) r))
          × (bye (some id) r ≡ update i (with_state gone) r)
          × ((k : CStr) → find (bye (some id) r) (some k) ≡ find r (some k))
          × ((k : CStr) → find (heartbeat (some id) seq now r).1 (some k) ≡ find r (some k)))
unfolding heartbeat bye find
heartbeat-bye id seq now r = elim (Option-cases (find r (some id))) [
  | inl e ↦ inl (e, rw (heartbeat, e) refl, rw (bye, e) refl)
  | inr (i, e) ↦
      let beat : heartbeat (some id) seq now r ≡ (pos 0, update i (with_heartbeat seq now) r) =
        rw (heartbeat, e) refl in
      let left : bye (some id) r ≡ update i (with_state gone) r = rw (bye, e) refl in
      inr (
        i,
        e,
        beat,
        left,
        (λ k. rw left (find_in-update (with_state gone) (λ x. refl) r.agents i k)),
        (λ k. rw beat (find_in-update (with_heartbeat seq now) (λ x. refl) r.agents i k)),
      )
]
