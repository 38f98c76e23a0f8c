-- ===== src/ConfigCache/Tests.antt =====
-- A table of three names.
use retrace.Prelude.{
  ℕ, ◌≡◌, refl, true, false, none, some, List, [], ◌∷◌, arith, CStr, codes, ◌==◌, str_eq,
}
use retrace.Prelude.Int.{pos}
use retrace.Json.{Json}
use retrace.ConfigCache.{Snap, lookup, build}
use retrace.ConfigCache.Lookup.{first_named, lookup-build}

abbrev three : List (CStr × ℕ)
three = (codes "open", 1) ∷ (codes "read", 2) ∷ (codes "open", 3) ∷ []

-- Objects that are a function name; `[]` is the configuration itself.
abbrev names_only : Json
names_only = record {
  Object = CStr;
  Number = ℕ;
  get_string = λ o key. some o;
  get_number = λ o key. 0;
  has_value = λ o key. false;
  get_array =
      λ o key. some (some (codes "open") ∷ none ∷ some (codes "*") ∷ some (codes "read") ∷ []);
  is_zero = λ n. n == 0;
  to_u64 = λ n. n;
  to_i64 = λ n. pos n;
}

lookup-build_example :
    (snap : Snap CStr) × (build names_only (some []) true true ≡ some (some snap))
    × ((name : CStr)
        → str_eq [] name ≡ false
        → str_eq (codes "*") name ≡ false
        → lookup (some snap) (some name)
          ≡ some (
              first_named names_only
                (some (codes "open") ∷ none ∷ some (codes "*") ∷ some (codes "read") ∷ [])
                name))
lookup-build_example = lookup-build names_only [] _ true refl (omega arith)
