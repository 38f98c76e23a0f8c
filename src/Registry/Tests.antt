-- ===== src/Registry/Tests.antt =====
-- Two agents: one with an id that fits, one without.
use retrace.Prelude.{ℕ, ◌≡◌, none, some, [], ◌∷◌, arith, replicate, length, CStr, codes}
use retrace.Prelude.Int.{pos}
use retrace.Registry.{Registry, Hello, bind}
use retrace.Registry.Entry.{AgentEntry, no_agent, with_heartbeat}
use retrace.Registry.Rebind.{Bound, hellos, hellos-rebind, hellos-long}

abbrev web : Hello
web = record {
  agent_id = some (codes "web.1");
  pid = pos 40;
  ppid = pos 1;
  session = none;
  cmdline = some (codes "httpd");
}

abbrev worker : AgentEntry
worker = with_heartbeat 3 (pos 1000) no_agent

abbrev table : Registry
table = record { agents = worker ∷ []; id_counter = 0 }

hellos-rebind_example :
    (i : ℕ) × ((bind (codes "web.1") web table).0 ≡ some i)
    × Bound (codes "web.1") i (hellos 4 (codes "web.1") web table)
    × (length (hellos 4 (codes "web.1") web table).agents
        ≡ length (bind (codes "web.1") web table).1.agents)
hellos-rebind_example = hellos-rebind (codes "web.1") web 3 table (omega arith) (omega arith)

abbrev long_id : CStr
long_id = replicate 100 97

hellos-long_example : length (hellos 3 long_id web table).agents ≡ 4
hellos-long_example = hellos-long long_id web (omega arith) 3 table (omega arith, tt) (omega arith)
