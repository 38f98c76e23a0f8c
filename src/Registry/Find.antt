-- ===== src/Registry/Find.antt =====
-- Where an id is found in the table.
use retrace.Prelude.{
  ℕ, zero, suc, ◌≤◌, ◌<◌, ◌≡◌, refl, sym, ap, ◌∙◌, true, none, some, List, [], ◌∷◌, ◌++◌, arith,
  length, get_or, set, take, CStr, str_eq, str_eq→≡, Bool-cases, Option-cases, inl, inr,
}
use retrace.Registry.{find_in}
use retrace.Registry.Entry.{AgentEntry, no_agent}

abbrev pub HasId : List AgentEntry → CStr → ℕ → Type 0
HasId es id i = (i < length es) × ((get_or es i no_agent).id ≡ id)

some_first :
    (e : AgentEntry) (es : List AgentEntry) (id : CStr) (i : ℕ)
    → str_eq e.id id ≡ true
    → some 0 ≡ some i
    → HasId (e ∷ es) id i
some_first e es id zero m h = (omega arith, str_eq→≡ e.id id m)
some_first e es id (suc i) m h = absurd (ground (arith, h))

some_later :
    (e : AgentEntry) (es : List AgentEntry) (id : CStr) (k i : ℕ)
    → HasId es id k
    → some (suc k) ≡ some i
    → HasId (e ∷ es) id i
some_later e es id k zero p h = absurd (ground (arith, h))
some_later e es id k (suc i) p h =
    let same : k ≡ i = ground (arith, h) in
    (omega (arith, p.0), ap (λ n. (get_or es n no_agent).id) (sym same) ∙ p.1)

pub find_in-some :
    (es : List AgentEntry) (id : CStr) (i : ℕ) → find_in es id ≡ some i → HasId es id i
unfolding find_in
find_in-some [] id i h = ground arith
find_in-some (e ∷ es) id i h = elim (Bool-cases (str_eq e.id id)) [
  | inl m ↦ some_first e es id i m (rw (find_in, m) at h)
  | inr m ↦ elim (Option-cases (find_in es id)) [
    | inl n ↦ absurd (ground (arith, m, n, h))
    | inr (k, n) ↦ some_later e es id k i (find_in-some es id k n) (rw (find_in, m, n) at h)
  ]
]

-- A change that keeps the id of an entry.
pub find_in-update :
    (f : AgentEntry → AgentEntry)
    → ((e : AgentEntry) → (f e).id ≡ e.id)
    → (es : List AgentEntry) (i : ℕ) (id : CStr)
    → find_in (set es i (f (get_or es i no_agent))) id ≡ find_in es id
unfolding find_in
find_in-update f keeps [] i id = refl
find_in-update f keeps (e ∷ es) zero id = rw (find_in, keeps e) refl
find_in-update f keeps (e ∷ es) (suc i) id = elim (Bool-cases (str_eq e.id id)) [
  | inl m ↦ rw (find_in, m) refl
  | inr m ↦ rw (find_in, m, find_in-update f keeps es i id) refl
]

pub find_in-append :
    (es : List AgentEntry) (e : AgentEntry) (id : CStr)
    → find_in es id ≡ none
    → str_eq e.id id ≡ true
    → find_in (es ++ e ∷ []) id ≡ some (length es)
unfolding find_in
find_in-append [] e id h m = rw (find_in, m) refl
find_in-append (x ∷ es) e id h m = elim (Bool-cases (str_eq x.id id)) [
  | inl n ↦ absurd (ground (arith, n, h))
  | inr n ↦ elim (Option-cases (find_in es id)) [
    | inl k ↦ rw (find_in, n, find_in-append es e id k m) refl
    | inr (k, q) ↦ absurd (ground (arith, n, q, h))
  ]
]

pub get_or-append :
    (es : List AgentEntry) (e : AgentEntry) → get_or (es ++ e ∷ []) (length es) no_agent ≡ e
get_or-append [] e = refl
get_or-append (x ∷ es) e = get_or-append es e

pub take_all : (n : ℕ) (s : CStr) → length s ≤ n → take n s ≡ s
take_all zero [] h = refl
take_all (suc n) [] h = refl
take_all zero (c ∷ s) h = absurd (omega arith)
take_all (suc n) (c ∷ s) h = ap (λ t. c ∷ t) (take_all n s (omega arith))
