-- ===== src/Registry.antt =====
-- tools/retraced/registry.c: the daemon's table of agents. `agents` lists the used entries, and a
-- pointer to an entry is its index. The text that `snprintf` makes of a pid and a counter for an agent
-- without an id, `boot.<pid>.<counter>`, is the argument `boot_id`; times are in milliseconds.
use retrace.Prelude.{
  ℕ, zero, suc, ◌+◌, ◌%◌, ◌^◌, ◌<◌, Bool, true, false, Option, none, some, List, [], ◌∷◌, ◌++◌, leb,
  ltb, ◌==◌, if◌then◌else◌, length, get_or, set, CStr, codes, str_eq, fit, not, ◌&&◌, ◌||◌, map,
}
use retrace.Prelude.Int.{ℤ, pos, negsuc, ltb_ℤ, eqb_ℤ, ◌-ℤ◌}
use retrace.Registry.Entry.{
  registry_max, agent_id_max, session_max, cmdline_max, AgentState, live, stale, gone, AgentEntry,
  no_agent, with_state, with_heartbeat, with_parent, is_live, is_gone,
}
pub mod Entry
pub mod Find
pub mod Rebind
pub mod Sweep
pub mod Session
mod Tests

pub record Registry : Type 0 where
  pub agents : List AgentEntry
  pub id_counter : ℕ

-- `retraced_registry_init`
unfoldable pub init : Registry
init = record { agents = []; id_counter = 0 }

-- The loop of `retraced_registry_find`.
unfoldable pub find_in : List AgentEntry → CStr → Option ℕ
find_in [] id = none
find_in (e ∷ es) id = elim (str_eq e.id id) [
  | true ↦ some 0
  | false ↦ elim (find_in es id) [ none ↦ none | some i ↦ some (suc i) ]
]

unfoldable pub find : Registry → Option CStr → Option ℕ
unfolding find_in
find r none = none
find r (some id) = find_in r.agents id

-- `r->agents[i]` changed in place
abbrev pub update : ℕ → (AgentEntry → AgentEntry) → Registry → Registry
update i f r = record {
  agents = set r.agents i (f (get_or r.agents i no_agent));
  id_counter = r.id_counter;
}

abbrev pub text_of : Option CStr → CStr
text_of none = codes ""
text_of (some s) = s

-- What a HELLO carries.
pub record Hello : Type 0 where
  pub agent_id : Option CStr
  pub pid : ℤ
  pub ppid : ℤ
  pub session : Option CStr
  pub cmdline : Option CStr

-- The stores into a new entry, whose other fields are zero since `init`.
abbrev pub new_entry : CStr → Hello → AgentEntry
new_entry id h = record {
  id = fit agent_id_max id;
  session = fit session_max (text_of h.session);
  parent_id = codes "";
  cmdline = fit cmdline_max (text_of h.cmdline);
  pid = h.pid;
  ppid = h.ppid;
  parent_hole = false;
  spectator = pos 0;
  kernel_obs = 0;
  kernel_obs_last = 0;
  policy_epoch = 0;
  last_seq = 0;
  last_hb_ms = pos 0;
  state = live;
}

-- `retraced_registry_hello` behind the choice of the id
unfoldable pub bind : CStr → Hello → Registry → Option ℕ × Registry
unfolding find
bind id h r = elim (find r (some id)) [
  | some i ↦ (some i, update i (with_state live) r)
  | none ↦ if leb registry_max (length r.agents) then (none, r) else (
    some (length r.agents),
    record { agents = r.agents ++ new_entry id h ∷ []; id_counter = r.id_counter },
  )
]

module _ (boot_id : ℤ → ℕ → CStr) where
  -- The id of an agent that sent none, cut at the size of `minted`.
  unfoldable pub mint : Hello → Registry → Option ℕ × Registry
  unfolding bind
  mint h r =
      let n = (r.id_counter + 1) % 2 ^ 64 in
      bind (fit agent_id_max (boot_id h.pid n)) h (record { agents = r.agents; id_counter = n })

  -- `retraced_registry_hello`
  unfoldable pub hello : Hello → Registry → Option ℕ × Registry
  unfolding mint
  hello h r = elim h.agent_id [
    | none ↦ mint h r
    | some id ↦ if str_eq id [] then mint h r else bind id h r
  ]

-- `retraced_registry_bye`
unfoldable pub bye : Option CStr → Registry → Registry
unfolding find
bye id r = elim (find r id) [ none ↦ r | some i ↦ update i (with_state gone) r ]

-- `retraced_registry_heartbeat`
unfoldable pub heartbeat : Option CStr → ℕ → ℤ → Registry → ℤ × Registry
unfolding find
heartbeat id seq now_ms r = elim (find r id) [
  | none ↦ (negsuc 0, r)
  | some i ↦ (pos 0, update i (with_heartbeat seq now_ms) r)
]

-- The condition in the loop of the sweep.
unfoldable pub is_late : ℤ → ℤ → AgentEntry → Bool
is_late now_ms timeout_ms e =
    is_live e.state && ltb_ℤ (pos 0) e.last_hb_ms && ltb_ℤ timeout_ms (now_ms -ℤ e.last_hb_ms)

-- The loop of `retraced_registry_sweep`.
unfoldable pub sweep_all : ℤ → ℤ → List AgentEntry → ℕ × List AgentEntry
unfolding is_late
sweep_all now_ms timeout_ms [] = (0, [])
sweep_all now_ms timeout_ms (e ∷ es) =
    let rest = sweep_all now_ms timeout_ms es in
    if is_late now_ms timeout_ms e
    then (rest.0 + 1, with_state stale e ∷ rest.1)
    else (rest.0, e ∷ rest.1)

unfoldable pub sweep : ℤ → ℤ → Registry → ℕ × Registry
unfolding sweep_all
sweep now_ms timeout_ms r =
    let s = sweep_all now_ms timeout_ms r.agents in
    (s.0, record { agents = s.1; id_counter = r.id_counter })

-- The loop of `retraced_registry_link_parent` from entry `i` on, for the entry `self`.
unfoldable pub parent_from : ℕ → ℤ → ℕ → List AgentEntry → Option ℕ
parent_from self ppid i [] = none
parent_from self ppid i (c ∷ cs) =
    let rest = parent_from self ppid (i + 1) cs in
    if not (i == self) && eqb_ℤ c.pid ppid && not (is_gone c.state) then some i else rest

-- `retraced_registry_link_parent`
unfoldable pub link_parent : ℕ → Registry → Option ℕ × Registry
unfolding find parent_from
link_parent self r =
    let e = get_or r.agents self no_agent in
    if not (str_eq e.parent_id []) || e.parent_hole
    then (find r (some e.parent_id), r)
    else elim (parent_from self e.ppid 0 r.agents) [
      | some i ↦
          let cand = get_or r.agents i no_agent in
          (some i, update self (with_parent (fit agent_id_max cand.id) e.parent_hole) r)
      | none ↦ (none, update self (with_parent e.parent_id (ltb_ℤ (pos 1) e.ppid)) r)
    ]
