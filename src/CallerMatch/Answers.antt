-- ===== src/CallerMatch/Answers.antt =====
-- The cache is transparent: every matcher answers as if it asked `dladdr` each time.
use retrace.Prelude.{
  ℕ, ◌≡◌, ◌≢◌, ◌||◌, refl, sym, ap, ◌∙◌, Option, arith, ◌==◌, CStr, Bool-cases, Option-cases, inl,
  inr, if◌then◌else◌,
}
use retrace.Prelude.Int.{negsuc}
use retrace.CallerCache
use retrace.CallerCache.Laws.{IsTrue, cached_true, lookup_lem, lookup-IsTrue, insert-IsTrue}
use retrace.CallerMatch.{
  DlInfo, InfoCache, is_blank, cached_dladdr, match_symbol, match_module_offset, symbol_verdict,
  module_verdict,
}

module _ (dladdr : ℕ → Option DlInfo) (c : InfoCache) (true_cache : IsTrue dladdr c) where
  -- `cached_dladdr` returns what `dladdr` returns, and the cache stays true.
  pub cached_dladdr_lem :
      (ret_addr : ℕ)
      → ret_addr ≢ 0
      → ((cached_dladdr dladdr ret_addr c).0 ≡ dladdr ret_addr)
        × IsTrue dladdr (cached_dladdr dladdr ret_addr c).1
  unfolding cached_dladdr
  cached_dladdr_lem a n = elim (Option-cases (CallerCache.lookup a c).0) [
    | inr (info, e) ↦
        rw (e, cached_dladdr)
          (
            sym (
                cached_true dladdr a info c.entries n true_cache
                  (sym (ground (arith, lookup_lem a c)) ∙ e)),
            lookup-IsTrue dladdr a c true_cache,
          )
    | inl e ↦ elim (Option-cases (dladdr a)) [
      | inl f ↦ rw (e, f, cached_dladdr) (refl, lookup-IsTrue dladdr a c true_cache)
      | inr (info, f) ↦
          rw (e, f, cached_dladdr)
            (refl, insert-IsTrue dladdr a info _ f (lookup-IsTrue dladdr a c true_cache))
    ]
  ]

  -- `retrace_caller_match_symbol` gives the verdict on what `dladdr` knows of the address, or -1
  -- where the address or the expected symbol is missing, whatever the cache holds.
  pub match_symbol_lem :
      (ret_addr : ℕ) (expected : Option CStr)
      → ((match_symbol dladdr ret_addr expected c).0 ≡ (
          if ret_addr == 0 || is_blank expected
          then negsuc 0
          else symbol_verdict expected (dladdr ret_addr)))
        × IsTrue dladdr (match_symbol dladdr ret_addr expected c).1
  unfolding match_symbol
  match_symbol_lem a expected = elim (Bool-cases (a == 0 || is_blank expected)) [
    | inl e ↦ rw e (refl, true_cache)
    | inr e ↦
        let (same, still) = cached_dladdr_lem a (ground arith) in
        rw e (ap (symbol_verdict expected) same, still)
  ]

  -- The same for `retrace_caller_match_module_offset`.
  pub match_module_offset_lem :
      (ret_addr : ℕ) (expected : Option CStr) (offset : ℕ)
      → ((match_module_offset dladdr ret_addr expected offset c).0 ≡ (
          if ret_addr == 0 || is_blank expected
          then negsuc 0
          else module_verdict ret_addr expected offset (dladdr ret_addr)))
        × IsTrue dladdr (match_module_offset dladdr ret_addr expected offset c).1
  unfolding match_module_offset
  match_module_offset_lem a expected offset = elim (Bool-cases (a == 0 || is_blank expected)) [
    | inl e ↦ rw e (refl, true_cache)
    | inr e ↦
        let (same, still) = cached_dladdr_lem a (ground arith) in
        rw e (ap (module_verdict a expected offset) same, still)
  ]
