-- ===== src/Scheduler/Drr/Order.antt =====
-- Each operation of the DRR scheduler on every branch, and the contract of `SchedulerInterface`.
use hqts.Base.{
  Bool, false, ℕ, zero, suc, ◌≡◌, ◌≢◌, refl, ap, inl, inr, none, some, length, null, ltb, ◌*◌,
  get_elem?, get_elem?-total, Result, ok, err, arith, lookup, Option-cases, List-cases, Bool-cases,
  out_of_range, runtime_error,
}
use native.Mathlib.Decide.{ℕ_discrete}
use hqts.Packet.{PacketDescriptor}
use hqts.Aqm.Interface.{AqmQueue}
use hqts.Scheduler.Interface.{AddsIf, TakesOrFails, Scheduler, IsScheduler}
use hqts.Scheduler.Drr.Invariant.{
  packets, IsQuantized, sent_lem, waited_lem, passed_lem, waited, passed, enqueue_in_lem,
}
use hqts.Scheduler.Drr.Visits.{
  sends, waits, passes, visit_cases, visit_sends, visit_waits, visit_empty, search_returned,
  search_moved,
}
use hqts.Scheduler.Drr.{
  DrrScheduler, InternalQueueState, enqueue, enqueue_in, search, dequeue, is_empty,
}

module _ {Q : Type 0} ⦃a : AqmQueue Q⦄ where
  abbrev pub Keeps : DrrScheduler Q → DrrScheduler Q × Result PacketDescriptor → Type 0
  Keeps s r = IsQuantized r.0 × TakesOrFails (packets s) r.1 (packets r.0)

  search-Keeps : (s : DrrScheduler Q) (n : ℕ) → IsQuantized s → Keeps s (search s n)
  unfolding search
  search-Keeps s zero v = elim (Bool-cases (ltb 0 s.total_packets)) [
    | inl e ↦ rw (e, search) (v, refl)
    | inr e ↦ rw (e, search) (v, refl)
  ]
  search-Keeps s (suc n) v = elim (visit_cases s v) [
    | sends q p ps g e h ↦
        rw (search_returned s n _ _ (visit_sends s q p ps g e h)) (sent_lem s q p ps v g e)
    | waits q p ps g e h ↦
        let (w, same) = waited_lem s q v g in
        rw (search_moved s n _ (visit_waits s q p ps g e h))
          (rw same at (search-Keeps (waited s q) n w))
    | passes q g e ↦
        rw (search_moved s n _ (visit_empty s q g e)) (search-Keeps (passed s) n (passed_lem s v))
  ]

  pub dequeue_empty :
      (s : DrrScheduler Q)
      → IsQuantized s
      → s.total_packets ≡ 0
      → dequeue s ≡ (s, err runtime_error)
  unfolding dequeue is_empty
  dequeue_empty s v h = let c = v.configured in ground arith

  pub dequeue_search :
      (s : DrrScheduler Q)
      → IsQuantized s
      → s.total_packets ≢ 0
      → dequeue s ≡ search s (length s.queues * 2)
  unfolding dequeue is_empty
  dequeue_search s v h = let c = v.configured in ground arith

  -- From a consistent state, `dequeue` keeps the state consistent; it takes one packet from those
  -- held, and the packet that it takes is the one that it returns, or it throws and keeps them all.
  pub dequeue-IsQuantized :
      (s : DrrScheduler Q)
      → IsQuantized s
      → IsQuantized (dequeue s).0 × TakesOrFails (packets s) (dequeue s).1 (packets (dequeue s).0)
  dequeue-IsQuantized s v = elim (ℕ_discrete s.total_packets 0) [
    | yes h ↦ rw (dequeue_empty s v h) (v, refl)
    | no h ↦ rw (dequeue_search s v h) (search-Keeps s (length s.queues * 2) v)
  ]

  pub enqueue_unknown :
      (s : DrrScheduler Q) (p : PacketDescriptor)
      → IsQuantized s
      → lookup p.priority s.queue_id_to_index ≡ none
      → enqueue s p ≡ (s, err out_of_range)
  unfolding enqueue
  enqueue_unknown s p v e = let c = v.configured in ground (arith, e)

  pub enqueue_known :
      (s : DrrScheduler Q) (p : PacketDescriptor) (k : ℕ) (q : InternalQueueState Q)
      → IsQuantized s
      → lookup p.priority s.queue_id_to_index ≡ some k
      → get_elem? s.queues k ≡ some q
      → enqueue s p ≡ enqueue_in s k p (some q)
  unfolding enqueue
  enqueue_known s p k q v e g = let c = v.configured in ground (arith, e, g)

  -- Whether `enqueue` stores the packet: its priority is the id of a queue, and the queue takes it.
  pub stores : DrrScheduler Q → PacketDescriptor → Bool
  stores s p = elim (lookup p.priority s.queue_id_to_index) [
    | none ↦ false
    | some i ↦ elim (get_elem? s.queues i) [
      | none ↦ false
      | some q ↦ (a.enqueue q.packet_queue p).1
    ]
  ]

  stores_unknown :
      (s : DrrScheduler Q) (p : PacketDescriptor)
      → lookup p.priority s.queue_id_to_index ≡ none
      → stores s p ≡ false
  unfolding stores
  stores_unknown s p e = rw (e, stores) refl

  stores_known :
      (s : DrrScheduler Q) (p : PacketDescriptor) (k : ℕ) (q : InternalQueueState Q)
      → lookup p.priority s.queue_id_to_index ≡ some k
      → get_elem? s.queues k ≡ some q
      → stores s p ≡ (a.enqueue q.packet_queue p).1
  unfolding stores
  stores_known s p k q e g = rw (e, stores) (rw (g, stores) refl)

  -- From a consistent state, `enqueue` keeps the state consistent, and adds the packet to those
  -- held if it stores it, else nothing.
  pub enqueue-IsQuantized :
      (s : DrrScheduler Q) (p : PacketDescriptor)
      → IsQuantized s
      → IsQuantized (enqueue s p).0 × AddsIf (stores s p) (packets s) p (packets (enqueue s p).0)
  enqueue-IsQuantized s p v = elim (Option-cases (lookup p.priority s.queue_id_to_index)) [
    | inl e ↦ rw (enqueue_unknown s p v e) (v, rw (AddsIf, stores_unknown s p e) refl)
    | inr (k, e) ↦
        let (q, g) = get_elem?-total s.queues k (v.mapped p.priority k e) in
        rw (enqueue_known s p k q v e g, stores_known s p k q e g) (enqueue_in_lem s k p q g v)
  ]

  pub is_empty-packets : (s : DrrScheduler Q) → IsQuantized s → is_empty s ≡ null (packets s)
  unfolding is_empty
  is_empty-packets s v =
      let c = v.configured in
      let t = v.total in
      elim (List-cases (packets s)) [
        | inl e ↦ ground (arith, e)
        | inr (p, ps, e) ↦ ground (arith, e)
      ]

  instance abbrev pub drr : Scheduler (DrrScheduler Q)
  drr = record { enqueue = enqueue; dequeue = dequeue; is_empty = λ s. ok (is_empty s) }

  -- The DRR scheduler meets the contract of the interface.
  unfoldable pub drr-IsScheduler : IsScheduler (DrrScheduler Q)
  drr-IsScheduler = record {
    Inv = IsQuantized;
    packets = packets;
    stores = stores;
    enqueue-Inv = λ s p v. (enqueue-IsQuantized s p v).0;
    dequeue-Inv = λ s v. (dequeue-IsQuantized s v).0;
    is_empty_lem = λ s v. ap ok (is_empty-packets s v);
    packets-enqueue = λ s p v. (enqueue-IsQuantized s p v).1;
    packets-dequeue = λ s v. (dequeue-IsQuantized s v).1;
  }
