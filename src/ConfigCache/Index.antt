-- ===== src/ConfigCache/Index.antt =====
-- The hashed lookup finds what the linear scan finds, for every table that the build makes.
use mathlib.Core.List.{append_assoc, append-nil}
use native.Mathlib.Nat.{one-le-pow}
use retrace.Prelude.{
  ℕ, suc, ◌+◌, ◌-◌, ◌^◌, ◌≤◌, ◌<◌, ◌≡◌, refl, sym, ap, ap₂, ◌∙◌, subst, true, false, none, some,
  List, [], ◌∷◌, ◌++◌, arith, length, length-append, get_or, set, length-set, All, All-set,
  All-get_or, All-imp, CStr, str_eq, str_eq→≡, Bool-cases, Option-cases, inl, inr, if◌then◌else◌,
}
use retrace.Prelude.Bits.{bit_and_mask}
use retrace.ConfigCache.{start, name_hash, find_empty, probe, scan, fill}
use retrace.ConfigCache.Probe.{
  NoMatch, meets, find_empty-ends, probe-none, probe-set_found, probe-set_new,
}
use retrace.ConfigCache.Scan.{
  fill_cons, zeros, zeros-set, empty_cell, name_of-append, script_of-append, or_else, scan-snoc,
  scan-none,
}

module _ {ℓ} {A : Type ℓ} where
  module _ (all : List (CStr × A)) (nb k : ℕ) (pow : nb ≡ 2 ^ k) where
    -- The first entries `pre` are in the table, and every walk agrees with their linear scan.
    pub record Indexed (pre : List (CStr × A)) (t : List ℕ) : Type ℓ where
      pub size : length t ≡ nb
      pub small : All (λ c. c ≤ length pre) t
      pub empties : zeros t + length pre ≡ nb
      pub found : (x : CStr) → probe nb all t nb x (start nb x) ≡ some (scan pre x)

    pub start-lt : (x : CStr) → start nb x < nb
    start-lt x = ground (arith, bit_and_mask k (name_hash x), one-le-pow k 2)

    no_match :
        (pre suf : List (CStr × A)) (t : List ℕ) (x : CStr)
        → all ≡ pre ++ suf
        → All (λ c. c ≤ length pre) t
        → scan pre x ≡ none
        → NoMatch all nb x t
    no_match pre suf t x e small h b n = rw e (
        scan-none pre suf x (get_or t b 0 - 1) h
          (omega (arith, All-get_or (λ c. c ≤ length pre) t b 0 small (omega arith))))

    module _ (pre suf : List (CStr × A)) (y : CStr) (s : A) (e : all ≡ pre ++ (y, s) ∷ suf)
        (t : List ℕ) (room : length all < nb) (i : Indexed pre t) where
      pre' : List (CStr × A)
      pre' = pre ++ (y, s) ∷ []

      length-pre' : length pre' ≡ suc (length pre)
      unfolding pre'
      length-pre' = omega (arith, length-append pre ((y, s) ∷ []))

      room_before : length pre < nb
      room_before = omega (arith, ap length e, length-append pre ((y, s) ∷ suf))

      room_after : length pre' < nb
      room_after = omega (arith, ap length e, length-append pre ((y, s) ∷ suf), length-pre')

      regroup : all ≡ pre' ++ suf
      unfolding pre'
      regroup = e ∙ sym (append_assoc pre ((y, s) ∷ []) suf)

      slot : (p : ℕ) × (find_empty nb t nb (start nb y) ≡ some p) × (get_or t p 0 ≡ 0) × (p < nb)
      slot =
          let (j, h, z) = empty_cell t (omega (arith, i.empties, room_before)) in
          let (m, hm, em) =
            meets nb k pow t (start nb y) j (start-lt y) (omega (arith, i.size)) z in
          find_empty-ends nb k pow nb t (start nb y) m (start-lt y) hm em

      module _ (p : ℕ) (here : find_empty nb t nb (start nb y) ≡ some p) (z : get_or t p 0 ≡ 0)
          (hp : p < nb) where
        t' : List ℕ
        t' = set t p (suc (length pre))

        small' : All (λ c. c ≤ length pre') t'
        unfolding t'
        small' =
            All-set (λ c. c ≤ length pre') t p (suc (length pre))
              (All-imp (λ c. c ≤ length pre) (λ c. c ≤ length pre') t
                (λ c h. omega (arith, length-pre')) i.small)
              (omega (arith, length-pre'))

        empties' : zeros t' + length pre' ≡ nb
        unfolding t'
        empties' =
            omega
              (arith, zeros-set t p (length pre) (omega (arith, i.size)) z, length-pre', i.empties)

        size' : length t' ≡ nb
        unfolding t'
        size' = length-set t p (suc (length pre)) ∙ i.size

        scan_here :
            (x : CStr) → scan pre' x ≡ or_else (scan pre x) (if str_eq y x then some s else none)
        unfolding pre'
        scan_here x = scan-snoc pre y s x

        scan_absent :
            (x : CStr) → scan pre x ≡ none → scan pre' x ≡ (if str_eq y x then some s else none)
        scan_absent x h = scan_here x ∙ ap (λ o. or_else o (if str_eq y x then some s else none)) h

        found_old :
            (x : CStr) (a : A)
            → scan pre x ≡ some a
            → probe nb all t' nb x (start nb x) ≡ some (scan pre' x)
        unfolding t'
        found_old x a h =
            probe-set_found all nb x nb t p (suc (length pre)) (start nb x) (some a) z (λ q. cc)
              (i.found x ∙ ap some h)
            ∙ ap some
                (sym (scan_here x ∙ ap (λ o. or_else o (if str_eq y x then some s else none)) h))

        found_new :
            (x : CStr)
            → scan pre x ≡ none
            → str_eq y x ≡ true
            → probe nb all t' nb x (start nb x) ≡ some (scan pre' x)
        unfolding t'
        found_new x h m =
            probe-set_new all nb x nb t p (length pre) (start nb x)
              (subst (λ n. find_empty nb t nb (start nb n) ≡ some p) (str_eq→≡ y x m) here)
              (omega (arith, i.size)) z (no_match pre ((y, s) ∷ suf) t x e i.small h)
              (rw (e, name_of-append pre suf y s) m)
            ∙ ap some (rw (e, script_of-append pre suf y s, scan_absent x h, m) refl)

        found_none :
            (x : CStr)
            → scan pre x ≡ none
            → str_eq y x ≡ false
            → probe nb all t' nb x (start nb x) ≡ some (scan pre' x)
        found_none x h m =
            let absent : scan pre' x ≡ none = rw (scan_absent x h, m) refl in
            let (j, hj, zj) = empty_cell t' (omega (arith, empties', room_after)) in
            let (n, hn, en) =
              meets nb k pow t' (start nb x) j (start-lt x) (omega (arith, size')) zj in
            probe-none all nb x k pow nb t' (start nb x) n (start-lt x) hn en
              (no_match pre' suf t' x regroup small' absent)
            ∙ ap some (sym absent)

        found' : (x : CStr) → probe nb all t' nb x (start nb x) ≡ some (scan pre' x)
        found' x = elim (Option-cases (scan pre x)) [
          | inr (a, h) ↦ found_old x a h
          | inl h ↦ elim (Bool-cases (str_eq y x)) [
            | inl m ↦ found_new x h m
            | inr m ↦ found_none x h m
          ]
        ]

        placed : Indexed pre' t'
        placed = record { size = size'; small = small'; empties = empties'; found = found' }

    pub fill-Indexed :
        (suf pre : List (CStr × A)) (t : List ℕ)
        → all ≡ pre ++ suf
        → length all < nb
        → Indexed pre t
        → (u : List ℕ) × (fill suf nb (length pre) t ≡ some u) × Indexed all u
    unfolding fill t' pre'
    fill-Indexed [] pre t e room i =
        (t, refl, subst (λ l. Indexed l t) (sym (e ∙ append-nil pre)) i)
    fill-Indexed ((y, s) ∷ suf) pre t e room i =
        let (p, here, z, hp) = slot pre suf y s e t room i in
        let (u, h, done) =
          fill-Indexed suf (pre' pre suf y s e t room i) (t' pre suf y s e t room i p here z hp)
            (regroup pre suf y s e t room i) room (placed pre suf y s e t room i p here z hp) in
        (u, fill_cons y s suf nb (length pre) t p here ∙ opened p here z hp ∙ h, done)
      where
        opened :
            (p : ℕ) (here : find_empty nb t nb (start nb y) ≡ some p) (z : get_or t p 0 ≡ 0)
            (hp : p < nb)
            → fill suf nb (length pre + 1) (set t p (length pre + 1))
              ≡ fill suf nb
                  (length (pre' pre suf y s e t room i))
                  (t' pre suf y s e t room i p here z hp)
        opened p here z hp =
            ap₂ (λ n c. fill suf nb n (set t p c)) {x = length pre + 1}
              {y = length (pre' pre suf y s e t room i)} {u = length pre + 1} {v = suc (length pre)}
              (omega (arith, length-pre' pre suf y s e t room i)) (omega arith)
