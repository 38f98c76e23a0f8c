-- ===== src/CallerMatch/Tests.antt =====
-- One known symbol at one address.
use retrace.Prelude.{ℕ, ◌≡◌, refl, Option, none, some, [], ◌∷◌, ◌==◌, if◌then◌else◌, codes}
use retrace.CallerCache.Laws.{IsTrue}
use retrace.CallerMatch.{DlInfo, InfoCache, path_basename}

abbrev main_info : DlInfo
main_info = record { sname = some (codes "main"); fname = some (codes "/bin/app"); fbase = 4096 }

abbrev only_main : ℕ → Option DlInfo
only_main a = if a == 4160 then some main_info else none

abbrev cold : InfoCache
cold = record { entries = (0, main_info) ∷ (4160, main_info) ∷ []; hits = 0; misses = 0 }

cold-IsTrue : IsTrue only_main cold
cold-IsTrue = ((λ n. absurd (n refl)), ((λ n. refl), tt))

basename_of_app : path_basename (codes "/bin/app") ≡ codes "app"
unfolding path_basename
basename_of_app = refl
