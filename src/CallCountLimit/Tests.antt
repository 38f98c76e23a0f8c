-- ===== src/CallCountLimit/Tests.antt =====
-- Runs of the action on small tables.
use mathlib.Core.Bool.{true≢false}
use retrace.Prelude.{str_eq, ◌≡◌, refl, List, [], ◌∷◌, codes}
use retrace.Prelude.Int.{pos, negsuc}
use retrace.SlotTable.{held}
use retrace.CallCountLimit.{CountEntry, no_entry}
use retrace.CallCountLimit.Counting.{calls, calls_lem}

abbrev malloc_entry : CountEntry
malloc_entry = record { name = codes "malloc"; count = 5; limit = pos 5 }

abbrev table : List CountEntry
table = malloc_entry ∷ no_entry ∷ []

calls_lem_example :
    calls (codes "open") (pos 2) 5 table ≡ pos 0 ∷ pos 0 ∷ negsuc 0 ∷ negsuc 0 ∷ negsuc 0 ∷ []
unfolding held str_eq
calls_lem_example = calls_lem (codes "open") 2 3 table refl refl (λ full. true≢false (full.1.0))
