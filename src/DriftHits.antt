-- ===== src/DriftHits.antt =====
-- tools/retraced/drift_hits.c: the matcher that reports an operation seen by the kernel lane and not
-- claimed by the libc lane. Two rings of keys, each with the index of its next cell. `time(NULL)` is
-- an argument; the subtractions of times are written as sums.
use retrace.Prelude.{
  ℕ, zero, ◌+◌, ◌%◌, Bool, true, false, Option, none, some, List, [], ◌∷◌, ltb, ◌==◌, if◌then◌else◌,
  set, replicate, CStr, codes, str_eq, fit, not, ◌&&◌, ◌||◌,
}
use retrace.Prelude.Int.{ℤ, pos, negsuc, ltb_ℤ, eqb_ℤ}
pub mod Windows
pub mod LongPaths
mod Tests

abbrev pub claim_ring : ℕ
claim_ring = 128

abbrev pub hit_ring : ℕ
hit_ring = 64

abbrev pub claim_window_s : ℕ
claim_window_s = 5

abbrev pub hit_dedup_s : ℕ
hit_dedup_s = 15

abbrev pub op_max : ℕ
op_max = 32

abbrev pub path_max_len : ℕ
path_max_len = 192

-- `struct claim` and `struct hit_key`, which the code casts into each other
pub record Key : Type 0 where
  pub pid : ℤ
  pub op : CStr
  pub path : CStr
  pub ts : ℕ

pub record State : Type 0 where
  pub claims : List Key
  pub claims_next : ℕ
  pub hits : List Key
  pub hits_next : ℕ

abbrev pub zero_key : Key
zero_key = record { pid = pos 0; op = codes ""; path = codes ""; ts = 0 }

-- `retrace_drift_hits_reset`
unfoldable pub reset : State
reset = record {
  claims = replicate claim_ring zero_key;
  claims_next = 0;
  hits = replicate hit_ring zero_key;
  hits_next = 0;
}

-- `s != NULL ? s : ""`
abbrev pub or_empty : Option CStr → CStr
or_empty none = codes ""
or_empty (some s) = s

unfoldable pub key_copy : ℤ → Option CStr → Option CStr → ℕ → Key
key_copy pid op path now = record {
  pid = pid;
  op = fit op_max (or_empty op);
  path = fit path_max_len (or_empty path);
  ts = now;
}

-- `pid > 0 && c->pid > 0 && pid != c->pid`
abbrev pub other_pid : ℤ → ℤ → Bool
other_pid pid kept = ltb_ℤ (pos 0) pid && ltb_ℤ (pos 0) kept && not (eqb_ℤ pid kept)

unfoldable pub same_key : Key → ℤ → Option CStr → Option CStr → Bool
same_key c pid op path =
    if not (str_eq c.op (or_empty op))
    then false
    else if not (str_eq c.path (or_empty path))
    then false
    else not (other_pid pid c.pid)

-- The test of one cell in the loops of `claim_covers` and `hit_recent`.
unfoldable pub counts : ℕ → Key → ℤ → Option CStr → Option CStr → ℕ → Bool
unfolding same_key
counts span c pid op path now =
    if c.ts == 0 then false else if ltb (c.ts + span) now then false else same_key c pid op path

unfoldable pub any_recent : ℕ → List Key → ℤ → Option CStr → Option CStr → ℕ → Bool
unfolding counts
any_recent span [] pid op path now = false
any_recent span (c ∷ cs) pid op path now =
    let rest = any_recent span cs pid op path now in
    if counts span c pid op path now then true else rest

abbrev pub claim_covers : State → ℤ → Option CStr → Option CStr → ℕ → Bool
claim_covers s pid op path now = any_recent claim_window_s s.claims pid op path now

abbrev pub hit_recent : State → ℤ → Option CStr → Option CStr → ℕ → Bool
hit_recent s pid op path now = any_recent hit_dedup_s s.hits pid op path now

-- `retrace_drift_claim`
unfoldable pub claim : ℤ → Option CStr → Option CStr → ℕ → State → State
unfolding key_copy
claim pid op path now s = record {
  claims = set s.claims s.claims_next (key_copy pid op path now);
  claims_next = (s.claims_next + 1) % claim_ring;
  hits = s.hits;
  hits_next = s.hits_next;
}

abbrev pub is_unnamed : Option CStr → Bool
is_unnamed path = str_eq (or_empty path) []

-- The store of a hit in `retrace_drift_observe`.
unfoldable pub add_hit : ℤ → Option CStr → Option CStr → ℕ → State → State
unfolding key_copy
add_hit pid op path now s = record {
  claims = s.claims;
  claims_next = s.claims_next;
  hits = set s.hits s.hits_next (key_copy pid op path now);
  hits_next = (s.hits_next + 1) % hit_ring;
}

-- `retrace_drift_observe`: 1 for a hit to report, else 0
unfoldable pub observe : ℤ → Option CStr → Option CStr → ℕ → State → ℕ × State
unfolding any_recent add_hit
observe pid op path now s =
    if is_unnamed path
    then (0, s)
    else if claim_covers s pid op path now
    then (0, s)
    else if hit_recent s pid op path now
    then (0, s)
    else (1, add_hit pid op path now s)
