-- ===== src/CallerCache/Tests.antt =====
-- A table of two slots, which fills at once.
use retrace.Prelude.{ℕ, [], ◌∷◌}
use retrace.CallerCache.{Cache}

abbrev full : Cache ℕ
full = record { entries = (64, 1) ∷ (80, 2) ∷ []; hits = 0; misses = 0 }
