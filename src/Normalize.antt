-- ===== src/Normalize.antt =====
-- tools/trace-diff/normalize.c: the summary of a trace by function name, and the sequence of its calls.
-- `get_object` is `json_object_get_object`; `realloc_ok` says for which capacities there is
-- memory, and `malloc_ok` for which sizes.
use retrace.Prelude.{
  ℕ, zero, suc, ◌+◌, ◌*◌, ◌%◌, ◌^◌, Bool, true, false, Option, none, some, List, [], ◌∷◌, ◌++◌,
  ◌==◌, if◌then◌else◌, CStr, codes, fit, str_eq, length,
}
use retrace.Json.{Json}
pub mod Counts
pub mod Runs
pub mod Keys
pub mod LongNames
pub mod Memory
pub mod Tests

-- `char name[64]`
abbrev pub name_size : ℕ
name_size = 64

pub record FuncStat : Type 0 where
  pub name : CStr
  pub call_count : ℕ
  pub total_duration_us : ℕ

-- `count` is the length of `funcs`.
pub record NormalizedLog : Type 0 where
  pub funcs : List FuncStat
  pub cap : ℕ

-- `normalize_find`
unfoldable pub find : CStr → List FuncStat → Option FuncStat
find name [] = none
find name (st ∷ funcs) = if str_eq st.name name then some st else find name funcs

-- The index of the entry that `log_get_or_create` finds.
abbrev pub after_first : Option ℕ → Option ℕ
after_first none = none
after_first (some i) = some (suc i)

unfoldable pub find_index : CStr → List FuncStat → Option ℕ
find_index name [] = none
find_index name (st ∷ funcs) =
    let further = after_first (find_index name funcs) in
    if str_eq st.name name then some 0 else further

-- `set_fixed` into the name of a new entry.
unfoldable pub new_stat : CStr → FuncStat
new_stat name = record { name = fit name_size name; call_count = 0; total_duration_us = 0 }

-- The two counters of an entry, which are `uint64_t`.
unfoldable pub count_in : ℕ → FuncStat → FuncStat
count_in us st = record st {
  call_count = (st.call_count + 1) % 2 ^ 64;
  total_duration_us = (st.total_duration_us + us) % 2 ^ 64;
}

unfoldable pub update : ℕ → (FuncStat → FuncStat) → List FuncStat → List FuncStat
update i f [] = []
update zero f (st ∷ funcs) = f st ∷ funcs
update (suc i) f (st ∷ funcs) = st ∷ update i f funcs

module _ (realloc_ok : ℕ → Bool) where
  unfoldable pub grown : NormalizedLog → Option NormalizedLog
  grown log =
      let newcap = if log.cap == 0 then 16 else log.cap * 2 in
      if length log.funcs == log.cap
      then (if realloc_ok newcap then some (record log { cap = newcap }) else none)
      else some log

  -- A new entry at the end, where there is memory.
  unfoldable pub create : CStr → Option NormalizedLog → Option (ℕ × NormalizedLog)
  unfolding new_stat
  create name none = none
  create name (some log) =
      some (length log.funcs, record log { funcs = log.funcs ++ new_stat name ∷ [] })

  -- The entry of the name, by its index.
  unfoldable pub log_get_or_create : CStr → NormalizedLog → Option (ℕ × NormalizedLog)
  unfolding find_index grown create
  log_get_or_create name log = elim (find_index name log.funcs) [
    | some i ↦ some (i, log)
    | none ↦ create name (grown log)
  ]

  -- The call is counted in its entry.
  unfoldable pub counted : ℕ → Option (ℕ × NormalizedLog) → Option NormalizedLog
  unfolding update count_in
  counted us none = none
  counted us (some (i, log)) = some (record log { funcs = update i (count_in us) log.funcs })

  module _ (j : Json) (get_object : j.Object → CStr → Option j.Object) where
    open j use {Object, get_string, get_number, has_value, to_u64}

    -- The name and the message of an entry that is a call.
    unfoldable pub call_of_message : Option Object → Option (CStr × Object)
    call_of_message none = none
    call_of_message (some msg) = elim (get_string msg (codes "func")) [
      | none ↦ none
      | some func ↦ if has_value msg (codes "call_duration_us") then some (func, msg) else none
    ]

    unfoldable pub call_of : Option Object → Option (CStr × Object)
    unfolding call_of_message
    call_of none = none
    call_of (some entry) = call_of_message (get_object entry (codes "message"))

    -- One round of the loop: an entry that is no call is skipped.
    unfoldable pub add_entry : Option (CStr × Object) → NormalizedLog → Option NormalizedLog
    unfolding counted log_get_or_create
    add_entry none log = some log
    add_entry (some (func, msg)) log =
        counted (to_u64 (get_number msg (codes "call_duration_us"))) (log_get_or_create func log)

    unfoldable pub normalize_loop :
        List (Option Object) → Option NormalizedLog → Option NormalizedLog
    unfolding call_of add_entry
    normalize_loop [] log = log
    normalize_loop (entry ∷ rest) none = none
    normalize_loop (entry ∷ rest) (some log) = normalize_loop rest (add_entry (call_of entry) log)

    -- `normalize_from_trace` of a trace that is not NULL.
    unfoldable pub normalize_from_trace : List (Option Object) → Option NormalizedLog
    unfolding normalize_loop
    normalize_from_trace trace = normalize_loop trace (some (record { funcs = []; cap = 0 }))

    module _ (malloc_ok : ℕ → Bool) where
      -- One name more in the sequence, of which `cap` places are there.
      unfoldable pub push_name : Option (CStr × Object) → ℕ × List CStr → Option (ℕ × List CStr)
      push_name none (cap, seq) = some (cap, seq)
      push_name (some (func, msg)) (cap, seq) =
          let full = length seq == cap in
          let newcap = if cap == 0 then 32 else cap * 2 in
          let cap' = if full then newcap else cap in
          if (if full then realloc_ok newcap else true)
          then (if malloc_ok (length func + 1) then some (cap', seq ++ func ∷ []) else none)
          else none

      unfoldable pub sequence_loop :
          List (Option Object) → Option (ℕ × List CStr) → Option (ℕ × List CStr)
      unfolding call_of push_name
      sequence_loop [] seq = seq
      sequence_loop (entry ∷ rest) none = none
      sequence_loop (entry ∷ rest) (some seq) = sequence_loop rest (push_name (call_of entry) seq)

      -- `normalize_call_sequence` of a trace that is not NULL: the capacity and the names.
      unfoldable pub normalize_call_sequence : List (Option Object) → Option (ℕ × List CStr)
      unfolding sequence_loop
      normalize_call_sequence trace = sequence_loop trace (some (0, []))
