-- ===== src/FailFirst.antt =====
-- src/core/actions/fail_first.c: the action that fails the first `fails` calls of its function with
-- a given return value and lets the later ones through. The global table is passed and returned. A
-- call count stays below 2^63.
use retrace.Prelude.{
  ℕ, ◌+◌, Bool, Option, none, some, List, if◌then◌else◌, get_or, set, replicate, CStr, codes, ◌&&◌,
  not,
}
use retrace.Prelude.Int.{ℤ, pos, negsuc, leb_ℤ}
use retrace.Json.{Json}
use retrace.SlotTable.{scan_slots, is_free, table_size}
pub mod Window
mod Tests

pub record FailEntry : Type 0 where
  pub name : CStr
  pub count : ℕ
  pub fails : ℤ
  pub retval : ℤ

abbrev pub no_entry : FailEntry
no_entry = record { name = codes ""; count = 0; fails = pos 0; retval = pos 0 }

-- `g_entries` as it starts
abbrev pub initial : List FailEntry
initial = replicate table_size no_entry

-- `find_or_claim`: the slot of the function and the table with it claimed, or none for a full
-- table. A claim leaves the return value of the slot.
unfoldable pub find_or_claim : CStr → ℤ → List FailEntry → Option (ℕ × List FailEntry)
unfolding scan_slots
find_or_claim func fails tbl = elim (scan_slots (λ (e : FailEntry). e.name) func tbl 0 none) [
  | none ↦ none
  | some i ↦
      let e = get_or tbl i no_entry in
      let claimed : FailEntry = record {
        name = func;
        count = 0;
        fails = fails;
        retval = e.retval;
      } in
      some (i, if is_free e.name then set tbl i claimed else tbl)
]

-- The status, the value stored in `t_ctx->ret_val` if there is one, and the table.
abbrev pub Outcome : Type 0
Outcome = ℤ × Option ℤ × List FailEntry

-- The count and the test of `ia_fail_first`, for a function with a name.
unfoldable pub fail_call : CStr → ℤ → ℤ → List FailEntry → Outcome
unfolding find_or_claim
fail_call func fails retval tbl = elim (find_or_claim func fails tbl) [
  | none ↦ (pos 0, none, tbl)
  | some (i, t) ↦
      let e = get_or t i no_entry in
      let counted : FailEntry = record {
        name = e.name;
        count = e.count + 1;
        fails = e.fails;
        retval = retval;
      } in
      if leb_ℤ (pos (e.count + 1)) e.fails
      then (negsuc 0, some retval, set t i counted)
      else (pos 0, none, set t i counted)
]

module _ (j : Json) where
  open j use {Object, has_value, get_number, to_i64}

  -- `ia_fail_first`: the parameters, and the name of the prototype if there is one
  unfoldable pub fail_first : Option Object → Option CStr → List FailEntry → Outcome
  unfolding fail_call
  fail_first none proto tbl = (negsuc 0, none, tbl)
  fail_first (some params) proto tbl =
      if has_value params (codes "fails") && has_value params (codes "retval_int")
      then elim proto [
        | none ↦ (negsuc 0, none, tbl)
        | some func ↦
            if is_free func
            then (negsuc 0, none, tbl)
            else fail_call func (to_i64 (get_number params (codes "fails")))
                (to_i64 (get_number params (codes "retval_int"))) tbl
      ]
      else (negsuc 0, none, tbl)
