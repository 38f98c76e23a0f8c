-- ===== src/PathSet/Built.antt =====
-- src/core/actions/sandbox.c: the sets that `path_set_build` makes.
use retrace.Prelude.{
  ℕ, zero, suc, ◌+◌, ◌-◌, ◌≤◌, ◌<◌, ◌≡◌, refl, ap, ◌∙◌, subst, inl, inr, Bool, true, false, Option,
  none, some, List, [], ◌∷◌, arith, ◌==◌, if◌then◌else◌, CStr, length, length-set, get_or,
  get_or-set_self, get_or-set_ne, get_or-take, length-take, set, replicate, take, Bool-cases,
}
use retrace.PathSet.{
  path_buckets, bucket_of, CompiledSet, count_loop, off_loop, sorted, with_copies, Memory,
  path_set_build,
}
use retrace.PathSet.Sorted.{in_bucket, bucket_of-bound, place_loop-puts}
use retrace.PathSet.Lookup.{IsSetOf}

count_loop-counts :
    (list : List (Option CStr)) (counts : List ℕ) (b : ℕ)
    → length counts ≡ path_buckets + 1
    → b ≤ path_buckets
    → get_or (count_loop list counts) b 0 ≡ get_or counts b 0 + in_bucket b list
unfolding count_loop
count_loop-counts [] counts b l h = omega arith
count_loop-counts (e ∷ list) counts b l h =
    let own = bucket_of e in
    let v = get_or counts own 0 + 1 in
    let rest = count_loop-counts list (set counts own v) b (length-set counts own v ∙ l) h in
    elim (Bool-cases (own == b)) [
      | inl t ↦
          let same : own ≡ b = ground arith in
          let self = get_or-set_self counts own v 0 (omega (arith, l, bucket_of-bound e)) in
          let at_b = subst (λ c. get_or (set counts own v) c 0 ≡ get_or counts c 0 + 1) same self in
          rw t (omega (arith, rest, at_b))
      | inr t ↦
          let kept = get_or-set_ne counts own b v 0 (ground arith) in
          rw t (omega (arith, rest, kept))
    ]

sum : List ℕ → ℕ
sum [] = 0
sum (c ∷ counts) = c + sum counts

off_loop-next :
    (o : ℕ) (counts : List ℕ) (b : ℕ)
    → b < length counts
    → get_or (off_loop o counts) (suc b) 0 ≡ get_or (off_loop o counts) b 0 + get_or counts b 0
unfolding off_loop
off_loop-next o [] b h = absurd (omega arith)
off_loop-next o (c ∷ []) zero h = refl
off_loop-next o (c ∷ d ∷ counts) zero h = refl
off_loop-next o (c ∷ counts) (suc b) h = off_loop-next (o + c) counts b (omega arith)

length-count_loop :
    (list : List (Option CStr)) (counts : List ℕ) → length (count_loop list counts) ≡ length counts
unfolding count_loop
length-count_loop [] counts = refl
length-count_loop (e ∷ list) counts =
    length-count_loop list (set counts (bucket_of e) _) ∙ length-set counts (bucket_of e) _

sum-set :
    (counts : List ℕ) (i : ℕ)
    → i < length counts
    → sum (set counts i (get_or counts i 0 + 1)) ≡ sum counts + 1
unfolding sum
sum-set [] i h = absurd (omega arith)
sum-set (c ∷ counts) zero h = omega arith
sum-set (c ∷ counts) (suc i) h =
    let h' : i < length counts = omega arith in omega (arith, sum-set counts i h')

sum-count_loop :
    (list : List (Option CStr)) (counts : List ℕ)
    → length counts ≡ path_buckets + 1
    → sum (count_loop list counts) ≡ sum counts + length list
unfolding count_loop
sum-count_loop [] counts l = omega arith
sum-count_loop (e ∷ list) counts l =
    let own = bucket_of e in
    let v = get_or counts own 0 + 1 in
    let one = sum-set counts own (omega (arith, l, bucket_of-bound e)) in
    let rest = sum-count_loop list (set counts own v) (length-set counts own v ∙ l) in
    omega (arith, rest, one)

off_loop-last :
    (o : ℕ) (counts : List ℕ) → get_or (off_loop o counts) (length counts) 0 ≡ o + sum counts
unfolding off_loop sum
off_loop-last o [] = omega arith
off_loop-last o (c ∷ counts) = omega (arith, off_loop-last (o + c) counts)

length-off_loop : (o : ℕ) (counts : List ℕ) → length (off_loop o counts) ≡ length counts + 1
unfolding off_loop
length-off_loop o [] = refl
length-off_loop o (c ∷ counts) = omega (arith, length-off_loop (o + c) counts)

off_loop-rises :
    (counts : List ℕ) (b d : ℕ)
    → b + d ≤ length counts
    → get_or (off_loop 0 counts) b 0 ≤ get_or (off_loop 0 counts) (b + d) 0
off_loop-rises counts b zero h = let same : b + 0 ≡ b = omega arith in rw same (omega arith)
off_loop-rises counts b (suc d) h =
    let same : b + suc d ≡ suc (b + d) = omega arith in
    let before = off_loop-rises counts b d (omega arith) in
    rw same (omega (arith, before, off_loop-next 0 counts (b + d) (omega arith)))

module _ (list : List (Option CStr)) where
  bucket_counts : List ℕ
  bucket_counts = count_loop list (replicate (path_buckets + 1) 0)

  offs : ℕ → ℕ
  offs b = get_or (off_loop 0 bucket_counts) b 0

  bucket_counts-size : length bucket_counts ≡ path_buckets + 1
  unfolding bucket_counts
  bucket_counts-size = length-count_loop list (replicate (path_buckets + 1) 0)

  offs-apart : (b c : ℕ) → b < c → c ≤ path_buckets → offs (suc b) ≤ offs c
  unfolding offs
  offs-apart b c h k =
      let same : suc b + (c - suc b) ≡ c = omega (arith, h) in
      subst
        (λ x. get_or (off_loop 0 bucket_counts) (suc b) 0 ≤ get_or (off_loop 0 bucket_counts) x 0)
        same
        (off_loop-rises bucket_counts (suc b) (c - suc b) (omega (arith, h, k, bucket_counts-size)))

  offs-end : (b : ℕ) → b ≤ path_buckets → offs (suc b) ≤ length list
  unfolding offs bucket_counts sum
  offs-end b h =
      let same : suc b + (path_buckets - b) ≡ length bucket_counts =
        omega (arith, h, bucket_counts-size) in
      let up =
        off_loop-rises bucket_counts (suc b) (path_buckets - b)
          (omega (arith, h, bucket_counts-size)) in
      let end = off_loop-last 0 bucket_counts in
      let total = sum-count_loop list (replicate (path_buckets + 1) 0) refl in
      let zeros : sum (replicate (path_buckets + 1) 0) ≡ 0 = refl in
      let up' = subst (λ x. offs (suc b) ≤ get_or (off_loop 0 bucket_counts) x 0) same up in
      omega (arith, up', end, total, zeros)

  zero_counts : (b n : ℕ) → get_or {A = ℕ} (replicate n 0) b 0 ≡ 0
  zero_counts b zero = refl
  zero_counts zero (suc n) = refl
  zero_counts (suc b) (suc n) = zero_counts b n

  offs-next : (b : ℕ) → b ≤ path_buckets → offs b + in_bucket b list ≡ offs (suc b)
  unfolding offs bucket_counts
  offs-next b h =
      let next = off_loop-next 0 bucket_counts b (omega (arith, h, bucket_counts-size)) in
      let here = count_loop-counts list (replicate (path_buckets + 1) 0) b refl h in
      omega (arith, next, here, zero_counts b (path_buckets + 1))

  -- The part of a bucket has as many places as the list has entries in the bucket.
  pub sorted-off :
      (uninit : List ℕ) (first last : Option CStr) (b : ℕ)
      → b ≤ path_buckets
      → get_or (sorted uninit list first last).off b 0 + in_bucket b list
        ≡ get_or (sorted uninit list first last).off (b + 1) 0
  unfolding sorted offs bucket_counts
  sorted-off uninit first last b h =
      offs-next b h
      ∙ ap (λ i. get_or (off_loop 0 bucket_counts) i 0) {x = suc b} {y = b + 1} (omega arith)

  sorted-IsSetOf :
      (uninit : List ℕ) (first last : Option CStr)
      → length list ≤ length uninit
      → IsSetOf list (sorted uninit list first last)
  unfolding sorted offs bucket_counts
  sorted-IsSetOf uninit first last room m e g =
      let full = length-off_loop 0 bucket_counts in
      let cursor : List ℕ = take (path_buckets + 1) (off_loop 0 bucket_counts) in
      let cut = length-take (path_buckets + 1) (off_loop 0 bucket_counts) in
      let starts : (b : ℕ) → b ≤ path_buckets → get_or cursor b 0 ≡ offs b =
        λ b h. get_or-take (path_buckets + 1) (off_loop 0 bucket_counts) b 0 (omega (arith, h)) in
      let (at, lo, hi, put) =
        place_loop-puts offs (length uninit) offs-apart (λ b h. omega (arith, offs-end b h, room)) 0
          list cursor uninit m e
          (
            λ b h. (omega (arith, starts b h), omega (arith, starts b h, offs-next b h)),
            omega (arith, cut, full, bucket_counts-size),
            refl,
          )
          g in
      (at, lo, hi, omega (arith, put))

  -- The set, where there is one.
  abbrev pub IsCompiled : Option CompiledSet → Type 0
  IsCompiled none = Unit
  IsCompiled (some set) = IsSetOf list set

  if-IsCompiled :
      (b : Bool) (o o' : Option CompiledSet)
      → IsCompiled o
      → IsCompiled o'
      → IsCompiled (if b then o else o')
  if-IsCompiled true o o' h k = h
  if-IsCompiled false o o' h k = k

  with_copies-IsCompiled :
      (uninit : List ℕ) (first last : Option CStr)
      → length list ≤ length uninit
      → IsCompiled (with_copies uninit list first last)
  unfolding with_copies
  with_copies-IsCompiled uninit none last room = tt
  with_copies-IsCompiled uninit (some first) none room = tt
  with_copies-IsCompiled uninit (some first) (some last) room =
      sorted-IsSetOf uninit (some first) (some last) room

  pub path_set_build-IsCompiled :
      (mem : Memory) → length list ≤ length mem.uninit → IsCompiled (path_set_build mem list)
  unfolding path_set_build
  path_set_build-IsCompiled mem room =
      if-IsCompiled mem.set_ok _ none
        (if-IsCompiled (length list == 0) _ _ (sorted-IsSetOf mem.uninit none none room)
          (with_copies-IsCompiled mem.uninit _ _ room))
        tt
