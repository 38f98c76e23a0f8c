-- ===== src/CallCountLimit.antt =====
-- src/core/actions/call_count_limit.c: the action that aborts a script once its function was called
-- more than `limit` times. The global table is passed and returned. A call count stays below 2^63.
use retrace.Prelude.{
  ℕ, ◌+◌, Bool, Option, none, some, List, if◌then◌else◌, get_or, set, replicate, CStr, codes,
}
use retrace.Prelude.Int.{ℤ, pos, negsuc, ltb_ℤ}
use retrace.Json.{Json}
use retrace.SlotTable.{scan_slots, is_free, table_size}
pub mod Counting
mod Tests

pub record CountEntry : Type 0 where
  pub name : CStr
  pub count : ℕ
  pub limit : ℤ

abbrev pub no_entry : CountEntry
no_entry = record { name = codes ""; count = 0; limit = pos 0 }

-- `g_entries` as it starts
abbrev pub initial : List CountEntry
initial = replicate table_size no_entry

-- `find_or_claim`: the slot of the function and the table with it claimed, or none for a full table.
unfoldable pub find_or_claim : CStr → ℤ → List CountEntry → Option (ℕ × List CountEntry)
unfolding scan_slots
find_or_claim func limit tbl = elim (scan_slots (λ (e : CountEntry). e.name) func tbl 0 none) [
  | none ↦ none
  | some i ↦
      let claimed : CountEntry = record { name = func; count = 0; limit = limit } in
      some (i, if is_free (get_or tbl i no_entry).name then set tbl i claimed else tbl)
]

-- The count and the test of `ia_call_count_limit`, for a function with a name.
unfoldable pub count_call : CStr → ℤ → List CountEntry → ℤ × List CountEntry
unfolding find_or_claim
count_call func limit tbl = elim (find_or_claim func limit tbl) [
  | none ↦ (pos 0, tbl)
  | some (i, t) ↦
      let e = get_or t i no_entry in
      let counted : CountEntry = record { name = e.name; count = e.count + 1; limit = e.limit } in
      (if ltb_ℤ e.limit (pos (e.count + 1)) then negsuc 0 else pos 0, set t i counted)
]

module _ (j : Json) where
  open j use {Object, has_value, get_number, to_i64}

  -- `ia_call_count_limit`: the parameters, and the name of the prototype if there is one
  unfoldable pub call_count_limit :
      Option Object → Option CStr → List CountEntry → ℤ × List CountEntry
  unfolding count_call
  call_count_limit none proto tbl = (negsuc 0, tbl)
  call_count_limit (some params) proto tbl =
      if has_value params (codes "limit")
      then elim proto [
        | none ↦ (negsuc 0, tbl)
        | some func ↦
            if is_free func
            then (negsuc 0, tbl)
            else count_call func (to_i64 (get_number params (codes "limit"))) tbl
      ]
      else (negsuc 0, tbl)
