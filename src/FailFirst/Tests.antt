-- ===== src/FailFirst/Tests.antt =====
-- Runs of the action on small tables.
use mathlib.Core.Bool.{true≢false}
use retrace.Prelude.{◌≡◌, refl, none, some, List, [], ◌∷◌, codes, str_eq}
use retrace.Prelude.Int.{pos, negsuc}
use retrace.SlotTable.{held}
use retrace.FailFirst.{FailEntry, no_entry}
use retrace.FailFirst.Window.{fail_calls, fail_calls_lem}

abbrev read_entry : FailEntry
read_entry = record { name = codes "read"; count = 1; fails = pos 2; retval = negsuc 0 }

abbrev table : List FailEntry
table = read_entry ∷ no_entry ∷ []

fail_calls_lem_example :
    fail_calls (codes "open") (pos 2) (negsuc 0) 3 table
    ≡ (negsuc 0, some (negsuc 0)) ∷ (negsuc 0, some (negsuc 0)) ∷ (pos 0, none) ∷ []
unfolding held str_eq
fail_calls_lem_example =
    fail_calls_lem (codes "open") 2 1 (negsuc 0) table refl refl (λ full. true≢false (full.1.0))
