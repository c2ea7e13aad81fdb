-- ===== src/Scheduler/Drr/Progress.antt =====
-- When `dequeue` of the DRR scheduler is sure to send.
use mathlib.Core.Option.{some-injective}
use native.Mathlib.Nat.{mod-add-mod, mod-eq_of_lt}
use hqts.Base.{
  ℕ, zero, suc, ◌+◌, ◌*◌, ◌%◌, ◌≤◌, ◌<◌, ◌≡◌, ◌≢◌, refl, sym, ap, ◌∙◌, List, [], ◌∷◌, some, length,
  length-set, get_elem?, get_elem?-set_ne, get_elem?_bound, Result, ok, arith,
}
use hqts.Packet.{PacketDescriptor}
use hqts.Aqm.Interface.{AqmQueue}
use hqts.Scheduler.Bank.{place_onto, length-Perm, all_packets-set_pop}
use hqts.Scheduler.Drr.Invariant.{
  contents_of, IsQuantized, topped_up, waited, passed, waited_lem, passed_lem,
}
use hqts.Scheduler.Drr.Visits.{
  sends, waits, passes, visit_cases, visit_sends, visit_waits, visit_empty, search_returned,
  search_moved,
}
use hqts.Scheduler.Drr.Order.{dequeue_search}
use hqts.Scheduler.Drr.{DrrScheduler, InternalQueueState, search, dequeue}

-- One round on, the queue is one nearer.
pub step_nearer :
    (c d n k : ℕ)
    → c < n
    → c ≢ k
    → (c + d) % n ≡ k
    → (e : ℕ) × (d ≡ suc e) × (((c + 1) % n + e) % n ≡ k)
step_nearer c zero n k h ne turn =
    let e : c + 0 ≡ c = omega arith in absurd (ne (sym (mod-eq_of_lt h) ∙ (rw e at turn)))
step_nearer c (suc e) n k h ne turn =
    let same : c + 1 + e ≡ c + suc e = omega arith in
    (e, refl, mod-add-mod (c + 1) n e ∙ ap (λ (t : ℕ). t % n) same ∙ turn)

module _ {Q : Type 0} ⦃a : AqmQueue Q⦄ where
  abbrev pub Succeeds : DrrScheduler Q × Result PacketDescriptor → Type 0
  Succeeds r = (t : DrrScheduler Q) × (p : PacketDescriptor) × (r ≡ (t, ok p))

  -- Queue `k` can send once it has had its quantum.
  pub record IsReady (s : DrrScheduler Q) (k : ℕ) (q : InternalQueueState Q) (p : PacketDescriptor)
      (ps : List PacketDescriptor) : Type 0 where
    pub found : get_elem? s.queues k ≡ some q
    pub waiting : contents_of q ≡ p ∷ ps
    pub covered : p.packet_length_bytes ≤ q.deficit_counter + q.quantum_bytes

  waits_elsewhere :
      (s : DrrScheduler Q) (k : ℕ) (q w : InternalQueueState Q) (p u : PacketDescriptor)
      (ps us : List PacketDescriptor)
      → IsReady s k q p ps
      → get_elem? s.queues s.current_queue_index ≡ some w
      → contents_of w ≡ u ∷ us
      → w.deficit_counter + w.quantum_bytes < u.packet_length_bytes
      → s.current_queue_index ≢ k
  waits_elsewhere s k q w p u ps us r g e h same =
      let one : w ≡ q = some-injective _ _ (sym g ∙ (rw same r.found)) in
      let c = r.waiting in let l = r.covered in let f = ap contents_of one in ground arith

  pub passes_elsewhere :
      (s : DrrScheduler Q) (k : ℕ) (q w : InternalQueueState Q) (p : PacketDescriptor)
      (ps : List PacketDescriptor)
      → IsReady s k q p ps
      → get_elem? s.queues s.current_queue_index ≡ some w
      → contents_of w ≡ []
      → s.current_queue_index ≢ k
  passes_elsewhere s k q w p ps r g e same =
      let one : w ≡ q = some-injective _ _ (sym g ∙ (rw same r.found)) in let f = r.waiting in cc

  search_ready :
      (s : DrrScheduler Q) (n d k : ℕ) (q : InternalQueueState Q) (p : PacketDescriptor)
      (ps : List PacketDescriptor)
      → IsQuantized s
      → IsReady s k q p ps
      → (s.current_queue_index + d) % length s.queues ≡ k
      → d < n
      → Succeeds (search s n)
  search_ready s zero d k q p ps v r turn h = absurd (omega arith)
  search_ready s (suc n) d k q p ps v r turn h = elim (visit_cases s v) [
    | sends w u us g e l ↦ (_, u, search_returned s n _ _ (visit_sends s w u us g e l))
    | waits w u us g e l ↦
        let ne = waits_elsewhere s k q w p u ps us r g e l in
        let (b, near, turn') =
          step_nearer s.current_queue_index d (length s.queues) k v.index ne turn in
        let len = length-set s.queues s.current_queue_index (topped_up w) in
        let ready : IsReady (waited s w) k q p ps = record {
          found = get_elem?-set_ne s.queues (topped_up w) ne ∙ r.found;
          waiting = r.waiting;
          covered = r.covered;
        } in
        rw (search_moved s n _ (visit_waits s w u us g e l)) (
          search_ready (waited s w) n b k q p ps (waited_lem s w v g).0 ready (rw len turn')
            (omega arith))
    | passes w g e ↦
        let ne = passes_elsewhere s k q w p ps r g e in
        let (b, near, turn') =
          step_nearer s.current_queue_index d (length s.queues) k v.index ne turn in
        let ready : IsReady (passed s) k q p ps = record {
          found = r.found;
          waiting = r.waiting;
          covered = r.covered;
        } in
        rw (search_moved s n _ (visit_empty s w g e))
          (search_ready (passed s) n b k q p ps (passed_lem s v) ready turn' (omega arith))
  ]

  pub total_pos :
      (s : DrrScheduler Q) (k : ℕ) (q : InternalQueueState Q) (p : PacketDescriptor)
      (ps : List PacketDescriptor)
      → IsQuantized s
      → get_elem? s.queues k ≡ some q
      → contents_of q ≡ p ∷ ps
      → s.total_packets ≢ 0
  total_pos s k q p ps v g e =
      let w : InternalQueueState Q = record q { packet_queue = (a.dequeue q.packet_queue).0 } in
      let same = (a.dequeue_first q.packet_queue p ps e).1 in
      omega (
        arith,
        v.total,
        length-Perm (all_packets-set_pop contents_of s.queues k q w p g (rw same e)),
      )

  -- From a consistent state, if some queue's first packet is covered by its deficit and one
  -- quantum, `dequeue` returns a packet and does not throw, whatever the other queues hold.
  pub dequeue_ready :
      (s : DrrScheduler Q) (k : ℕ) (q : InternalQueueState Q) (p : PacketDescriptor)
      (ps : List PacketDescriptor)
      → IsQuantized s
      → IsReady s k q p ps
      → Succeeds (dequeue s)
  dequeue_ready s k q p ps v r =
      let (d, l, turn) =
        place_onto s.current_queue_index k (length s.queues) v.index
          (get_elem?_bound s.queues k r.found) in
      rw (dequeue_search s v (total_pos s k q p ps v r.found r.waiting))
        (search_ready s (length s.queues * 2) d k q p ps v r turn (omega arith))
