-- ===== src/PathSet/Sorted.antt =====
-- src/core/actions/sandbox.c: where the counting sort of `path_set_build` leaves the entries.
use retrace.Prelude.{
  ℕ, zero, suc, ◌+◌, ◌≤◌, ◌<◌, ◌≡◌, ◌≢◌, refl, sym, ap, ◌∙◌, subst, inl, inr, true, Option, none,
  some, List, [], ◌∷◌, arith, ◌==◌, ltb, if◌then◌else◌, CStr, length, length-set, get_or,
  get_or-set_self, get_or-set_ne, get_elem?, set, Bool-cases,
}
use retrace.PathSet.{path_buckets, bucket_of, entry_bucket, place_loop}

-- How many entries are in the bucket.
abbrev pub in_bucket : ℕ → List (Option CStr) → ℕ
in_bucket b [] = 0
in_bucket b (e ∷ list) = (if bucket_of e == b then 1 else 0) + in_bucket b list

pub bucket_of-bound : (e : Option CStr) → bucket_of e ≤ path_buckets
unfolding bucket_of entry_bucket
bucket_of-bound none = omega arith
bucket_of-bound (some []) = omega arith
bucket_of-bound (some (c ∷ s)) = ground arith

module _ (off : ℕ → ℕ) (size : ℕ)
    (apart : (b c : ℕ) → b < c → c ≤ path_buckets → off (suc b) ≤ off c)
    (last : (b : ℕ) → b ≤ path_buckets → off (suc b) ≤ size) where
  -- Each cursor is in the part of its bucket, with room for the entries that are left.
  abbrev pub Room : List (Option CStr) → List ℕ → List ℕ → Type 0
  Room list cursor idx =
      ((b : ℕ)
        → b ≤ path_buckets
        → (off b ≤ get_or cursor b 0) × (get_or cursor b 0 + in_bucket b list ≡ off (suc b)))
      × (length cursor ≡ path_buckets + 1)
      × (length idx ≡ size)

  Room-step :
      (e : Option CStr) (list : List (Option CStr)) (cursor idx : List ℕ) (v : ℕ)
      → Room (e ∷ list) cursor idx
      → Room list
          (set cursor (bucket_of e) (get_or cursor (bucket_of e) 0 + 1))
          (set idx (get_or cursor (bucket_of e) 0) v)
  Room-step e list cursor idx v (room, lc, li) =
      let at = get_or cursor (bucket_of e) 0 in
      let own = bucket_of-bound e in
      (
        λ b h. elim (Bool-cases (bucket_of e == b)) [
          | inl t ↦
              let same : bucket_of e ≡ b = ground arith in
              let self = get_or-set_self cursor (bucket_of e) (at + 1) 0 (omega (arith, lc, own)) in
              let r = room (bucket_of e) own in
              let once : (bucket_of e == bucket_of e) ≡ true = ground arith in
              let left = rw once at r.1 in
              subst
                (λ c.
                  (off c ≤ get_or (set cursor (bucket_of e) (at + 1)) c 0)
                  × (get_or (set cursor (bucket_of e) (at + 1)) c 0 + in_bucket c list
                      ≡ off (suc c)))
                same (rw self (omega (arith, r.0), omega (arith, left)))
          | inr t ↦
              let ne = get_or-set_ne cursor (bucket_of e) b (at + 1) 0 (ground arith) in
              let r = room b h in let left = rw t at r.1 in rw ne (r.0, omega (arith, left))
        ],
        length-set cursor (bucket_of e) (at + 1) ∙ lc,
        length-set idx at v ∙ li,
      )

  -- The cursor of an entry's bucket is not at a place of another bucket.
  other_bucket :
      (e : Option CStr) (list : List (Option CStr)) (cursor idx : List ℕ) (b at : ℕ)
      → Room (e ∷ list) cursor idx
      → b ≤ path_buckets
      → off b ≤ at
      → at < get_or cursor b 0
      → bucket_of e ≢ b
      → get_or cursor (bucket_of e) 0 ≢ at
  other_bucket e list cursor idx b at r h lo hi n =
      let own = bucket_of e in
      let once : (own == own) ≡ true = ground arith in
      let mine = (r.0 b h).1 in
      let its = r.0 own (bucket_of-bound e) in
      let room = rw once at its.1 in
      elim (Bool-cases (ltb own b)) [
        | inl t ↦
            let before : own < b = ground arith in
            let gap = apart own b before h in omega (arith, gap, room, lo)
        | inr t ↦
            let behind : b < own = ground arith in
            let gap = apart b own behind (bucket_of-bound e) in omega (arith, gap, mine, its.0, hi)
      ]

  -- What is placed already stays.
  place_loop-keeps :
      (i : ℕ) (list : List (Option CStr)) (cursor idx : List ℕ) (b at : ℕ)
      → Room list cursor idx
      → b ≤ path_buckets
      → off b ≤ at
      → at < get_or cursor b 0
      → get_or (place_loop i list cursor idx) at 0 ≡ get_or idx at 0
  unfolding place_loop
  place_loop-keeps i [] cursor idx b at r h lo hi = refl
  place_loop-keeps i (e ∷ list) cursor idx b at r h lo hi =
      let own = bucket_of e in
      let there = get_or cursor own 0 in
      let next = Room-step e list cursor idx i r in
      let mine = r.0 b h in
      let its = r.0 own (bucket_of-bound e) in
      elim (Bool-cases (own == b)) [
        | inl t ↦
            let same : own ≡ b = ground arith in
            let same_there : there ≡ get_or cursor b 0 = ap (λ c. get_or cursor c 0) same in
            let self =
              get_or-set_self cursor own (there + 1) 0 (omega (arith, r.1, bucket_of-bound e)) in
            let moved =
              subst (λ c. get_or (set cursor own (there + 1)) c 0 ≡ there + 1) same self in
            place_loop-keeps (suc i) list (set cursor own (there + 1)) (set idx there i) b at next h
              lo (omega (arith, moved, hi, same_there))
            ∙ get_or-set_ne idx there at i 0 (omega (arith, hi, same_there))
        | inr t ↦
            let n : own ≢ b = ground arith in
            let far = other_bucket e list cursor idx b at r h lo hi n in
            place_loop-keeps (suc i) list (set cursor own (there + 1)) (set idx there i) b at next h
              lo (subst (λ x. at < x) (sym (get_or-set_ne cursor own b (there + 1) 0 n)) hi)
            ∙ get_or-set_ne idx there at i 0 far
      ]

  -- The place of an entry.
  pub place_loop-puts :
      (i : ℕ) (list : List (Option CStr)) (cursor idx : List ℕ) (m : ℕ) (e : Option CStr)
      → Room list cursor idx
      → get_elem? list m ≡ some e
      → (at : ℕ) × (off (bucket_of e) ≤ at)
        × (at < off (suc (bucket_of e)))
        × (get_or (place_loop i list cursor idx) at 0 ≡ i + m)
  unfolding place_loop
  place_loop-puts i [] cursor idx m e r g = ground arith
  place_loop-puts i (x ∷ list) cursor idx (suc m) e r g =
      let (at, lo, hi, put) =
        place_loop-puts (suc i) list _ _ m e (Room-step x list cursor idx i r) g in
      (at, lo, hi, omega (arith, put))
  place_loop-puts i (x ∷ list) cursor idx zero e r g =
      let same : x ≡ e = ground (arith, g) in
      let own = bucket_of x in
      let there = get_or cursor own 0 in
      let once : (own == own) ≡ true = ground arith in
      let its = r.0 own (bucket_of-bound x) in
      let room = rw once at its.1 in
      let end = last own (bucket_of-bound x) in
      let self = get_or-set_self cursor own (there + 1) 0 (omega (arith, r.1, bucket_of-bound x)) in
      let kept =
        place_loop-keeps (suc i) list (set cursor own (there + 1)) (set idx there i) own there
          (Room-step x list cursor idx i r) (bucket_of-bound x) its.0 (omega (arith, self)) in
      let put = kept ∙ get_or-set_self idx there i 0 (omega (arith, end, room, r.2)) in
      subst
        (λ y.
          (at : ℕ) × (off (bucket_of y) ≤ at)
          × (at < off (suc (bucket_of y)))
          × (get_or (place_loop i (x ∷ list) cursor idx) at 0 ≡ i + 0))
        same (there, its.0, omega (arith, room), omega (arith, put))
