-- ===== src/Lcs/Tests.antt =====
-- The comparison of two short traces.
use retrace.Prelude.{
  ℕ, ◌≤◌, ◌≡◌, refl, length, Bool, true, false, some, List, [], ◌∷◌, CStr, codes, str_eq,
}
use retrace.Lcs.{Item, matched, delete, insert, diff_lcs_len, diff_lcs_walk}
use retrace.Lcs.Optimal.{lcs, Common}
use retrace.Lcs.Table.{diff_lcs_len-Common}
use retrace.Lcs.Script.{sources, targets, matches, backwards, diff_lcs_walk-IsScript}

abbrev old_trace : List CStr
old_trace = codes "open" ∷ codes "read" ∷ codes "close" ∷ []

abbrev new_trace : List CStr
new_trace = codes "open" ∷ codes "write" ∷ codes "close" ∷ []

abbrev granted : ℕ → Bool
granted n = true

abbrev go_on : List Item → Bool
go_on l = false

two_in_common : diff_lcs_len old_trace new_trace granted ≡ 2
unfolding diff_lcs_len str_eq
two_in_common = refl

walk_of_traces :
    diff_lcs_walk old_trace new_trace granted go_on
    ≡ some (
        matched (codes "close")
        ∷ delete (codes "read")
        ∷ insert (codes "write")
        ∷ matched (codes "open")
        ∷ [])
unfolding diff_lcs_walk str_eq
walk_of_traces = refl

diff_lcs_len-Common_example :
    Common old_trace new_trace
      (length old_trace)
      (length new_trace)
      (diff_lcs_len old_trace new_trace granted)
    × ((n : ℕ)
        → Common old_trace new_trace (length old_trace) (length new_trace) n
        → n ≤ diff_lcs_len old_trace new_trace granted)
diff_lcs_len-Common_example = diff_lcs_len-Common old_trace new_trace granted refl

diff_lcs_walk-IsScript_example :
    (l : List Item) × (diff_lcs_walk old_trace new_trace granted go_on ≡ some l)
    × (sources l ≡ backwards old_trace (length old_trace))
    × (targets l ≡ backwards new_trace (length new_trace))
    × (matches l ≡ lcs old_trace new_trace (length old_trace) (length new_trace))
diff_lcs_walk-IsScript_example =
    diff_lcs_walk-IsScript old_trace new_trace granted go_on refl (λ l. refl)
