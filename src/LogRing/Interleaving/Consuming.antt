-- ===== src/LogRing/Interleaving/Consuming.antt =====
-- src/core/log_ring.c: the steps of a drain keep the invariant.
use retrace.Prelude.{
  ℕ, ◌+◌, ◌-◌, ◌%◌, ◌<◌, ◌≡◌, ◌≢◌, sym, ap, ◌∙◌, subst, [], ◌∷◌, ◌++◌, arith, length-set, get_or,
  set,
}
use mathlib.Core.List.{append_assoc}
use retrace.Prelude.Cyclic.{window, window_cons, window-set_outside}
use retrace.LogRing.{LogEntry, no_entry}
use retrace.LogRing.Cycle.{
  dist, next, dist-lt, next-lt, dist-zero, dist-next_left, dist-next_right, dist_self, around_back,
}
use retrace.LogRing.Interleaving.{Consumer, waiting, testing, took, System, next_index}
use retrace.LogRing.Interleaving.Inv.{
  cells, Inv, Granted-set, Granted-tail, head_in, tail_in, next_is,
}

module _ (k : ℕ) (s : System) (v : Inv k s) where
  open s use {ring, producer, consumer}

  -- The state with the consumer's place written out.
  at_consumer : (c : Consumer) → consumer ≡ c → Inv k (record s { consumer = c })
  at_consumer c p = subst (λ x. Inv k (record s { consumer = x })) p v

  pub load_indices-Inv :
      consumer ≡ waiting → Inv k (record s { consumer = testing ring.tail ring.head 0 })
  load_indices-Inv p =
      let w = at_consumer waiting p in
      record {
        valid = v.valid;
        place_in = (tail_in k s v);
        between = w.between;
        loaded = ((head_in k s v), omega (arith, dist_self (cells ring) ring.head (head_in k s v)));
        granted = v.granted;
        queue = w.queue;
      }

  pub accept-Inv :
      (t h n : ℕ)
      → consumer ≡ testing t h n
      → t ≢ h
      → Inv k (record s {
        consumer = took t h n;
        taken = s.taken ++ get_or ring.entries t no_entry ∷ [];
      })
  accept-Inv t h n p more =
      let c = cells ring in
      let w = at_consumer (testing t h n) p in
      let some_left : dist c t h ≢ 0 = λ z. more (dist-zero c t h w.place_in w.loaded.0 z) in
      let self = dist_self c ring.head (head_in k s v) in
      let left : dist c t ring.head ≢ 0 = omega (arith, some_left, w.loaded.1) in
      let apart : t ≢ ring.head = λ q. left (ap (λ x. dist c x ring.head) q ∙ self) in
      let shorter = dist-next_left c t ring.head w.place_in (head_in k s v) apart in
      let nearer = dist-next_left c t h w.place_in w.loaded.0 more in
      let below = dist-lt c ring.tail ring.head (tail_in k s v) (head_in k s v) in
      let room : dist c ring.tail t + 1 < c = omega (arith, w.between, below, left) in
      let behind = dist-next_right c ring.tail t (tail_in k s v) w.place_in room in
      let split : window no_entry c ring.entries t (dist c t ring.head)
          ≡ get_or ring.entries t no_entry
            ∷ window no_entry c ring.entries (next c t) (dist c (next c t) ring.head) =
        window_cons no_entry c ring.entries t (dist c t ring.head) left
        ∙ ap (λ m. get_or ring.entries t no_entry ∷ window no_entry c ring.entries (next c t) m)
            {x = dist c t ring.head - 1} {y = dist c (next c t) ring.head}
            (omega (arith, shorter)) in
      record {
        valid = v.valid;
        place_in = next-lt c t t w.place_in w.place_in;
        between = omega (arith, w.between, behind, shorter);
        loaded = (
          w.place_in,
          w.loaded.0,
          omega (arith, w.loaded.1, shorter, nearer),
          omega (arith, behind),
        );
        granted = v.granted;
        queue =
            w.queue
            ∙ ap (λ q. s.taken ++ q) split
            ∙ sym (append_assoc s.taken (get_or ring.entries t no_entry ∷ []) _);
      }

  pub free_text-Inv :
      (t h n : ℕ) (x : LogEntry)
      → consumer ≡ took t h n
      → Inv k (record s {
        ring = record ring { entries = set ring.entries t x };
        consumer = testing (next_index ring t) h (n + 1);
      })
  free_text-Inv t h n x p =
      let c = cells ring in
      let w = at_consumer (took t h n) p in
      let t_in = w.loaded.0 in
      let round : t ≡ (next c t + ring.mask) % c = around_back ring.mask t t_in in
      let left = dist-lt c (next c t) ring.head w.place_in (head_in k s v) in
      let kept =
        window-set_outside no_entry c ring.entries x (dist c (next c t) ring.head) (next c t)
          ring.mask t w.place_in (omega (arith, left)) (omega arith) round in
      let apart : t ≢ ring.head =
        λ q. let same = ap (dist c ring.tail) q in omega (arith, same, w.between, w.loaded.3) in
      subst
        (λ i. Inv k (record s {
          ring = record ring { entries = set ring.entries t x };
          consumer = testing i h (n + 1);
        }))
        (sym (next_is k s v t))
        (record {
          valid = record {
            cap = v.valid.cap;
            size = length-set ring.entries t x ∙ v.valid.size;
            head_in = v.valid.head_in;
            tail_in = v.valid.tail_in;
          };
          place_in = w.place_in;
          between = w.between;
          loaded = (w.loaded.1, w.loaded.2);
          granted = Granted-set c ring.head ring.tail t x ring.entries producer apart v.granted;
          queue = w.queue ∙ ap (λ q. s.taken ++ q) (sym kept);
        })

  pub store_tail-Inv :
      (t h n : ℕ)
      → consumer ≡ testing t h n
      → Inv k (record s { ring = record ring { tail = t }; consumer = waiting })
  store_tail-Inv t h n p =
      let c = cells ring in
      let w = at_consumer (testing t h n) p in
      record {
        valid = record {
          cap = v.valid.cap;
          size = v.valid.size;
          head_in = v.valid.head_in;
          tail_in = omega (arith, w.place_in);
        };
        place_in = w.place_in;
        between = omega (arith, dist_self c t w.place_in);
        loaded = tt;
        granted =
            Granted-tail c ring.head ring.tail t ring.entries producer (omega (arith, w.between))
              v.granted;
        queue = w.queue;
      }
