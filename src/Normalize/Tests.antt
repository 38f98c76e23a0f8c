-- ===== src/Normalize/Tests.antt =====
-- A trace of three entries: the objects 1 and 2 are calls of `read` and `open`, 3 is a text entry.
use retrace.Prelude.{
  ℕ, zero, suc, ◌≡◌, refl, ◌%◌, ◌^◌, ◌+◌, Bool, true, false, Option, none, some, List, [], ◌∷◌,
  arith, ◌==◌, if◌then◌else◌, CStr, codes, length,
}
use retrace.Prelude.Int.{pos}
use retrace.Json.{Json}
use retrace.Normalize.{
  NormalizedLog, find, log_get_or_create, normalize_from_trace, normalize_call_sequence, call_of,
}
use retrace.Normalize.Counts.{occurrences, calls_of}
use retrace.Normalize.Memory.{normalize_find-occurrences}
use retrace.Normalize.LongNames.{Stored, log_get_or_create-long}

abbrev pub calls_json : Json
calls_json = record {
  Object = ℕ;
  Number = ℕ;
  get_string =
      λ o key. if o == 3 then none else if o == 1 then some (codes "read") else some (codes "open");
  get_number = λ o key. o + 5;
  has_value = λ o key. if o == 3 then false else true;
  get_array = λ o key. none;
  is_zero = λ n. n == 0;
  to_u64 = λ n. n;
  to_i64 = λ n. pos n;
}

abbrev pub message_of : ℕ → CStr → Option ℕ
message_of o key = some o

abbrev pub there_is : ℕ → Bool
there_is n = true

abbrev pub trace : List (Option ℕ)
trace = some 1 ∷ none ∷ some 2 ∷ some 3 ∷ some 1 ∷ []

abbrev pub summary : NormalizedLog
summary = record {
  funcs =
      record { name = codes "read"; call_count = 2; total_duration_us = 12 }
      ∷ record { name = codes "open"; call_count = 1; total_duration_us = 7 }
      ∷ [];
  cap = 16;
}

normalize_find-occurrences_example :
    (log : NormalizedLog) × (seq : ℕ × List CStr) × (normalize_from_trace there_is calls_json
        message_of trace
      ≡ some log)
    × (normalize_call_sequence there_is calls_json message_of there_is trace ≡ some seq)
    × ((m : CStr) → calls_of (find m log.funcs) ≡ occurrences m seq.1 % 2 ^ 64)
unfolding call_of
normalize_find-occurrences_example =
    normalize_find-occurrences there_is (λ n. refl) calls_json message_of there_is (λ n. refl) trace
      (omega arith, (tt, (omega arith, (tt, (omega arith, tt)))))

-- The letter a, n times.
abbrev letters : ℕ → CStr
letters zero = []
letters (suc n) = 97 ∷ letters n

log_get_or_create-long_example :
    (i : ℕ) × (log' : NormalizedLog) × (log_get_or_create there_is (letters 64) summary
      ≡ some (i, log'))
    × (length log'.funcs ≡ 3)
    × Stored log'.funcs
    × (find (letters 64) log'.funcs ≡ none)
log_get_or_create-long_example =
    log_get_or_create-long there_is (λ n. refl) (letters 64) summary
      (omega arith, (omega arith, tt)) (omega arith)
