-- ===== src/Registry/Entry.antt =====
-- An agent's entry in the table of tools/retraced/registry.c, and the changes made to one in place.
use retrace.Prelude.{ℕ, Bool, true, false, CStr, codes}
use retrace.Prelude.Int.{ℤ, pos}

abbrev pub registry_max : ℕ
registry_max = 1024

abbrev pub agent_id_max : ℕ
agent_id_max = 96

abbrev pub session_max : ℕ
session_max = 65

abbrev pub cmdline_max : ℕ
cmdline_max = 512

pub data AgentState : Type 0 where
  live : AgentState
  stale : AgentState
  gone : AgentState

pub record AgentEntry : Type 0 where
  pub id : CStr
  pub session : CStr
  pub parent_id : CStr
  pub cmdline : CStr
  pub pid : ℤ
  pub ppid : ℤ
  pub parent_hole : Bool
  pub spectator : ℤ
  pub kernel_obs : ℕ
  pub kernel_obs_last : ℕ
  pub policy_epoch : ℕ
  pub last_seq : ℕ
  pub last_hb_ms : ℤ
  pub state : AgentState

abbrev pub no_agent : AgentEntry
no_agent = record {
  id = codes "";
  session = codes "";
  parent_id = codes "";
  cmdline = codes "";
  pid = pos 0;
  ppid = pos 0;
  parent_hole = false;
  spectator = pos 0;
  kernel_obs = 0;
  kernel_obs_last = 0;
  policy_epoch = 0;
  last_seq = 0;
  last_hb_ms = pos 0;
  state = live;
}

abbrev pub with_state : AgentState → AgentEntry → AgentEntry
with_state s e = record {
  id = e.id;
  session = e.session;
  parent_id = e.parent_id;
  cmdline = e.cmdline;
  pid = e.pid;
  ppid = e.ppid;
  parent_hole = e.parent_hole;
  spectator = e.spectator;
  kernel_obs = e.kernel_obs;
  kernel_obs_last = e.kernel_obs_last;
  policy_epoch = e.policy_epoch;
  last_seq = e.last_seq;
  last_hb_ms = e.last_hb_ms;
  state = s;
}

abbrev pub with_heartbeat : ℕ → ℤ → AgentEntry → AgentEntry
with_heartbeat seq now_ms e = record {
  id = e.id;
  session = e.session;
  parent_id = e.parent_id;
  cmdline = e.cmdline;
  pid = e.pid;
  ppid = e.ppid;
  parent_hole = e.parent_hole;
  spectator = e.spectator;
  kernel_obs = e.kernel_obs;
  kernel_obs_last = e.kernel_obs_last;
  policy_epoch = e.policy_epoch;
  last_seq = seq;
  last_hb_ms = now_ms;
  state = live;
}

abbrev pub is_live : AgentState → Bool
is_live live = true
is_live _ = false

abbrev pub is_gone : AgentState → Bool
is_gone gone = true
is_gone _ = false

abbrev pub with_parent : CStr → Bool → AgentEntry → AgentEntry
with_parent parent hole e = record {
  id = e.id;
  session = e.session;
  parent_id = parent;
  cmdline = e.cmdline;
  pid = e.pid;
  ppid = e.ppid;
  parent_hole = hole;
  spectator = e.spectator;
  kernel_obs = e.kernel_obs;
  kernel_obs_last = e.kernel_obs_last;
  policy_epoch = e.policy_epoch;
  last_seq = e.last_seq;
  last_hb_ms = e.last_hb_ms;
  state = e.state;
}
