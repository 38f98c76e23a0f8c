-- ===== src/CallHash/Tests.antt =====
-- Two threads, one of which has called.
use retrace.Prelude.{refl, true, none, some, [], arith, codes}
use retrace.Prelude.Int.{pos}
use retrace.CallHash.{State, observe}
use retrace.CallHash.Threads.{IsValid, Observed, observe-Observed}

abbrev started : State
started = record { enabled = true; nodes = []; keys = λ t. none; last = 0 }

started-IsValid : IsValid started
started-IsValid = record {
  inside = λ t i e. absurd (ground (arith, e));
  apart = λ t u i e f. absurd (ground (arith, e));
}

observe-Observed_example :
    Observed started
      (observe 7 true true (some (codes "open")) (pos 3) started)
      7
      (codes "open")
      (pos 3)
observe-Observed_example = observe-Observed 7 (codes "open") (pos 3) started started-IsValid refl
