-- ===== src/Registry/Sweep.antt =====
-- What a sweep marks as stale.
use retrace.Prelude.{
  ℕ, ◌+◌, ◌≡◌, refl, ap₂, false, List, [], ◌∷◌, if◌then◌else◌, map, Bool-cases, inl, inr,
}
use retrace.Prelude.Int.{ℤ}
use retrace.Registry.{Registry, is_late, sweep_all, sweep}
use retrace.Registry.Entry.{AgentEntry, stale, with_state}

module _ (now_ms timeout_ms : ℤ) where
  -- An entry after the sweep, and how many of a list the sweep marks.
  abbrev swept : AgentEntry → AgentEntry
  swept e = if is_late now_ms timeout_ms e then with_state stale e else e

  abbrev late_count : List AgentEntry → ℕ
  late_count [] = 0
  late_count (e ∷ es) = if is_late now_ms timeout_ms e then late_count es + 1 else late_count es

  sweep_all_lem :
      (es : List AgentEntry) → sweep_all now_ms timeout_ms es ≡ (late_count es, map swept es)
  unfolding sweep_all
  sweep_all_lem [] = refl
  sweep_all_lem (e ∷ es) = elim (Bool-cases (is_late now_ms timeout_ms e)) [
    | inl l ↦ rw (sweep_all, l, sweep_all_lem es) refl
    | inr l ↦ rw (sweep_all, l, sweep_all_lem es) refl
  ]

  swept-IsOnTime : (e : AgentEntry) → is_late now_ms timeout_ms (swept e) ≡ false
  unfolding is_late
  swept-IsOnTime e = elim (Bool-cases (is_late now_ms timeout_ms e)) [
    | inl l ↦ rw l refl
    | inr l ↦ rw l l
  ]

  late_count-swept : (es : List AgentEntry) → late_count (map swept es) ≡ 0
  late_count-swept [] = refl
  late_count-swept (e ∷ es) = rw (swept-IsOnTime e) (late_count-swept es)

  swept-swept : (es : List AgentEntry) → map swept (map swept es) ≡ map swept es
  swept-swept [] = refl
  swept-swept (e ∷ es) = ap₂ ◌∷◌ (rw (swept-IsOnTime e) refl) (swept-swept es)

  -- A sweep marks as stale exactly the live entries whose last heartbeat is older than the timeout,
  -- returns their number, and leaves the others. A second sweep at the same time returns 0 and
  -- changes nothing.
  sweep_lem :
      (r : Registry)
      → let r' : Registry = record { agents = map swept r.agents; id_counter = r.id_counter } in
        (sweep now_ms timeout_ms r ≡ (late_count r.agents, r'))
        × (sweep now_ms timeout_ms r' ≡ (0, r'))
  unfolding sweep
  sweep_lem r = (
    rw (sweep, sweep_all_lem r.agents) refl,
    rw (sweep, sweep_all_lem (map swept r.agents), late_count-swept r.agents, swept-swept r.agents)
        refl,
  )
