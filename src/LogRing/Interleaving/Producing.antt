-- ===== src/LogRing/Interleaving/Producing.antt =====
-- src/core/log_ring.c: the steps of a push keep the invariant.
use retrace.Prelude.{
  ℕ, suc, ◌+◌, ◌%◌, ◌<◌, ◌≡◌, ◌≢◌, sym, ap, ◌∙◌, subst, [], ◌∷◌, ◌++◌, arith, length-set, get_or,
  set, get_or-set_self, inl, inr,
}
use mathlib.Core.List.{append_assoc}
use retrace.Prelude.Cyclic.{window, window_snoc, window-set_outside}
use retrace.LogRing.{LogEntry, no_entry}
use retrace.LogRing.Items.{used_end}
use retrace.LogRing.Cycle.{dist, next, dist-lt, next-lt, dist-next_right, dist_cases, next_cases}
use retrace.LogRing.Interleaving.{ready, found_room, stored, System, next_index}
use retrace.LogRing.Interleaving.Inv.{
  cells, Granted, here_of, queued, Inv, Loaded-head, head_in, tail_in, next_is,
}

module _ (k : ℕ) (s : System) (v : Inv k s) where
  open s use {ring, producer, consumer}

  pub drop_full-Inv : (d : ℕ) → Inv k (record s { ring = record ring { dropped = d } })
  drop_full-Inv d = record {
    valid = record {
      cap = v.valid.cap;
      size = v.valid.size;
      head_in = v.valid.head_in;
      tail_in = v.valid.tail_in;
    };
    place_in = v.place_in;
    between = v.between;
    loaded = v.loaded;
    granted = v.granted;
    queue = v.queue;
  }

  room_left :
      (h t : ℕ)
      → h < cells ring
      → t < cells ring
      → next (cells ring) h ≢ t
      → dist (cells ring) t h + 1 < cells ring
  room_left h t p q n = elim (dist_cases (cells ring) t h q p) [
    | inl d ↦ elim (next_cases (cells ring) h p) [
      | inl e ↦ omega (arith, d, e, n)
      | inr e ↦ omega (arith, d, e, n)
    ]
    | inr d ↦ elim (next_cases (cells ring) h p) [
      | inl e ↦ omega (arith, d, e, n)
      | inr e ↦ omega (arith, d, e, n)
    ]
  ]

  pub find_room-Inv :
      (e : LogEntry)
      → next_index ring ring.head ≢ ring.tail
      → Inv k (record s { producer = found_room e })
  find_room-Inv e n =
      let apart : next (cells ring) ring.head ≢ ring.tail = λ q. n (next_is k s v ring.head ∙ q) in
      record {
        valid = v.valid;
        place_in = v.place_in;
        between = v.between;
        loaded = v.loaded;
        granted = room_left ring.head ring.tail (head_in k s v) (tail_in k s v) apart;
        queue = v.queue;
      }

  pub store_entry-Inv :
      (e : LogEntry)
      → producer ≡ found_room e
      → Inv k (record s {
        ring = record ring { entries = set ring.entries ring.head e };
        producer = stored e;
      })
  store_entry-Inv e p =
      let room : dist (cells ring) ring.tail ring.head + 1 < cells ring =
        subst (Granted (cells ring) ring.head ring.tail ring.entries) p v.granted in
      let left = dist (cells ring) (here_of s) ring.head in
      let kept =
        window-set_outside no_entry (cells ring) ring.entries e left (here_of s) left ring.head
          v.place_in (omega arith)
          (dist-lt (cells ring) (here_of s) ring.head v.place_in (head_in k s v))
          (sym (used_end (cells ring) ring.head (here_of s) (head_in k s v) v.place_in)) in
      record {
        valid = record {
          cap = v.valid.cap;
          size = length-set ring.entries ring.head e ∙ v.valid.size;
          head_in = v.valid.head_in;
          tail_in = v.valid.tail_in;
        };
        place_in = v.place_in;
        between = v.between;
        loaded = v.loaded;
        granted = (
          room,
          get_or-set_self ring.entries ring.head e no_entry
              (omega (arith, v.valid.size, (head_in k s v))),
        );
        queue = v.queue ∙ ap (λ q. s.taken ++ q) (sym kept);
      }

  pub store_head-Inv :
      (e : LogEntry)
      → producer ≡ stored e
      → Inv k (record s {
        ring = record ring { head = next_index ring ring.head };
        producer = ready;
        pushed = s.pushed ++ e ∷ [];
      })
  store_head-Inv e p =
      let g = subst (Granted (cells ring) ring.head ring.tail ring.entries) p v.granted in
      let c = cells ring in
      let a = here_of s in
      let room : dist c a ring.head + 1 < c = omega (arith, g.0, v.between) in
      let far = dist-next_right c a ring.head v.place_in (head_in k s v) room in
      let longer = dist-next_right c ring.tail ring.head (tail_in k s v) (head_in k s v) g.0 in
      let last : get_or ring.entries ((a + dist c a ring.head) % c) no_entry ≡ e =
        ap (λ i. get_or ring.entries i no_entry) (used_end c ring.head a (head_in k s v) v.place_in)
        ∙ g.1 in
      let grown : window no_entry c ring.entries a (dist c a (next c ring.head))
          ≡ queued s ++ e ∷ [] =
        ap (window no_entry c ring.entries a) {x = dist c a (next c ring.head)}
          {y = suc (dist c a ring.head)} (omega (arith, far))
        ∙ window_snoc no_entry c ring.entries a (dist c a ring.head) v.place_in
        ∙ ap (λ x. queued s ++ x ∷ []) last in
      subst
        (λ x. Inv k (record s {
          ring = record ring { head = x };
          producer = ready;
          pushed = s.pushed ++ e ∷ [];
        }))
        (sym (next_is k s v ring.head))
        (record {
          valid = record {
            cap = v.valid.cap;
            size = v.valid.size;
            head_in = omega (arith, next-lt c ring.head ring.head (head_in k s v) (head_in k s v));
            tail_in = v.valid.tail_in;
          };
          place_in = v.place_in;
          between = omega (arith, far, longer, v.between);
          loaded =
              Loaded-head c ring.head ring.tail consumer (head_in k s v) v.place_in room v.loaded;
          granted = tt;
          queue =
              ap (λ l. l ++ e ∷ []) v.queue
              ∙ append_assoc s.taken (queued s) (e ∷ [])
              ∙ ap (λ q. s.taken ++ q) (sym grown);
        })
