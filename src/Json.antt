-- ===== src/Json.antt =====
-- The accessors of the vendored JSON library (src/config/json/parson.c) that the engine calls, as
-- an interface: an object's members by name, with NULL as `none`. A number is a C double, taken
-- with the casts that the engine applies to it.
use retrace.Prelude.{Bool, Option, List, CStr}
use retrace.Prelude.{ℕ}
use retrace.Prelude.Int.{ℤ}

pub record Json : Type 1 where
  pub Object : Type 0
  pub Number : Type 0
  -- `json_object_get_string`: NULL where the member is missing or is no string.
  pub get_string : Object → CStr → Option CStr
  -- `json_object_get_number`: 0.0 where the member is missing or is no number.
  pub get_number : Object → CStr → Number
  -- `json_object_has_value`
  pub has_value : Object → CStr → Bool
  -- `json_object_get_array`, then `json_array_get_object` of each item: NULL for one that is no
  -- object.
  pub get_array : Object → CStr → Option (List (Option Object))
  -- `d == 0.0`
  pub is_zero : Number → Bool
  -- `(unsigned long long)d`, `(long long)d`, and `(long)d` on the 64-bit targets
  pub to_u64 : Number → ℕ
  pub to_i64 : Number → ℤ
