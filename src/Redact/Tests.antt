-- ===== src/Redact/Tests.antt =====
-- Runs of the redaction on small texts.
use retrace.Prelude.{ℕ, ◌≡◌, ◌≤◌, ◌<◌, refl, some, List, [], ◌∷◌, CStr, codes, length, map}
use retrace.Redact.{apply, set_csv, set_patterns}
use retrace.Redact.Patterns.{fields, set_csv-set_patterns}
use retrace.Redact.Tokens.{Clean, apply-Clean}

secrets_table : set_csv (some (codes "key=*,,tok?")) ≡ some (codes "key=*" ∷ codes "tok?" ∷ [])
unfolding set_csv
secrets_table = refl

key_hidden : apply (codes "key=*" ∷ []) (codes "open key=1234 ke") ≡ some (codes "open *** ke", 63)
unfolding apply
key_hidden = refl

abbrev one_pattern : List CStr
one_pattern = codes "key=*" ∷ []

apply-Clean_example :
    (t : CStr) × (left : ℕ) × (apply one_pattern (codes "open key=1234 ke") ≡ some (t, left))
    × (length t ≤ length (codes "open key=1234 ke"))
    × ((0 < left) → Clean one_pattern t)
apply-Clean_example = apply-Clean one_pattern (codes "open key=1234 ke")

set_csv-set_patterns_example :
    set_csv (some (codes "a*,,b,"))
    ≡ some (set_patterns (some (map some (fields (codes "a*,,b,")))))
set_csv-set_patterns_example = set_csv-set_patterns (codes "a*,,b,")
