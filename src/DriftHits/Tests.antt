-- ===== src/DriftHits/Tests.antt =====
-- Observations of one file.
use retrace.Prelude.{◌≡◌, refl, Option, some, [], ◌∷◌, arith, replicate, CStr, codes}
use retrace.Prelude.Int.{pos}
use retrace.DriftHits.{State, reset, observe}
use retrace.DriftHits.Windows.{IsValid, Claim, claim_all, observe-claimed}
use retrace.DriftHits.LongPaths.{claims, after, observe-long}

reset-IsValid : IsValid reset
unfolding reset
reset-IsValid = record {
  claims_size = refl;
  hits_size = refl;
  claims_in = omega arith;
  hits_in = omega arith;
}

abbrev opened : Claim
opened = record {
  pid = pos 7;
  op = some (codes "open");
  path = some (codes "/etc/passwd");
  time = 100;
}

observe-claimed_example :
    observe
      (pos 7)
      (some (codes "open"))
      (some (codes "/etc/passwd"))
      104
      (claim_all (opened ∷ opened ∷ []) reset)
    ≡ (0, claim_all (opened ∷ opened ∷ []) reset)
observe-claimed_example =
    observe-claimed reset opened (opened ∷ []) (pos 7) 104 reset-IsValid (omega arith, omega arith)
      refl (λ e. omega arith) (omega arith) (omega arith)

abbrev seen : State
seen = (observe (pos 7) (some (codes "open")) (some (codes "/tmp/x")) 100 reset).1

abbrev long_path : Option CStr
long_path = some (replicate 200 97)

observe-long_example :
    (observe
      (pos 7)
      (some (codes "open"))
      long_path
      101
      (after (claims (pos 7) (some (codes "open")) long_path 100 ∷ []) reset)).0
    ≡ 1
observe-long_example =
    observe-long (pos 7) (some (codes "open")) long_path 101 (omega arith)
      (claims (pos 7) (some (codes "open")) long_path 100 ∷ [])
