-- ===== src/Scheduler/Wrr/Contract.antt =====
-- `enqueue` of the WRR scheduler on every branch, and the contract of `SchedulerInterface`.
use hqts.Base.{
  Bool, false, ℕ, ◌+◌, ◌≡◌, refl, ◌⊎◌, inl, inr, none, some, null, get_elem?, set, get_elem?-total,
  if◌then◌else◌, ok, err, arith, lookup, Option-cases, List-cases, out_of_range,
}
use hqts.Packet.{PacketDescriptor}
use hqts.Aqm.Interface.{AqmQueue}
use hqts.Scheduler.Interface.{AddsIf, Scheduler, IsScheduler}
use hqts.Scheduler.Wrr.Invariant.{packets, IsWeighted, enqueue_in_lem}
use hqts.Scheduler.Wrr.Order.{dequeue-IsWeighted}
use hqts.Scheduler.Wrr.{WrrScheduler, InternalQueueState, enqueue, enqueue_in, dequeue, is_empty}

module _ {Q : Type 0} ⦃a : AqmQueue Q⦄ where
  enqueue_unknown :
      (s : WrrScheduler Q) (p : PacketDescriptor)
      → IsWeighted s
      → lookup p.priority s.queue_id_to_index ≡ none
      → enqueue s p ≡ (s, err out_of_range)
  unfolding enqueue
  enqueue_unknown s p v e = let c = v.configured in ground (arith, e)

  enqueue_known :
      (s : WrrScheduler Q) (p : PacketDescriptor) (k : ℕ) (q : InternalQueueState Q)
      → IsWeighted s
      → lookup p.priority s.queue_id_to_index ≡ some k
      → get_elem? s.queues k ≡ some q
      → enqueue s p ≡ enqueue_in s k p (some q)
  unfolding enqueue
  enqueue_known s p k q v e g = let c = v.configured in ground (arith, e, g)

  -- From a consistent state, a packet whose priority is not the id of a queue is refused and
  -- nothing changes. Any other is offered to the queue of that id, and counted if that queue stores
  -- it; deficits, turn and all other queues stay.
  pub enqueue_queue :
      (s : WrrScheduler Q) (p : PacketDescriptor)
      → IsWeighted s
      → ((lookup p.priority s.queue_id_to_index ≡ none) × (enqueue s p ≡ (s, err out_of_range)))
        ⊎ ((k : ℕ) × (q : InternalQueueState Q) × (lookup p.priority s.queue_id_to_index ≡ some k)
            × (get_elem? s.queues k ≡ some q)
            × (enqueue s p ≡ (
              record s {
                queues =
                    set s.queues k (record q { packet_queue = (a.enqueue q.packet_queue p).0 });
                total_packets =
                    if (a.enqueue q.packet_queue p).1 then s.total_packets + 1 else s.total_packets;
              },
              ok tt,
            )))
  enqueue_queue s p v = elim (Option-cases (lookup p.priority s.queue_id_to_index)) [
    | inl e ↦ inl (e, enqueue_unknown s p v e)
    | inr (k, e) ↦
        let (q, g) = get_elem?-total s.queues k (v.mapped p.priority k e) in
        inr (k, q, e, g, rw (enqueue_known s p k q v e g) (unfold enqueue_in in refl))
  ]

  -- Whether `enqueue` stores the packet: its priority is the id of a queue, and the queue takes it.
  pub stores : WrrScheduler Q → PacketDescriptor → Bool
  stores s p = elim (lookup p.priority s.queue_id_to_index) [
    | none ↦ false
    | some i ↦ elim (get_elem? s.queues i) [
      | none ↦ false
      | some q ↦ (a.enqueue q.packet_queue p).1
    ]
  ]

  stores_unknown :
      (s : WrrScheduler Q) (p : PacketDescriptor)
      → lookup p.priority s.queue_id_to_index ≡ none
      → stores s p ≡ false
  unfolding stores
  stores_unknown s p e = rw (e, stores) refl

  stores_known :
      (s : WrrScheduler Q) (p : PacketDescriptor) (k : ℕ) (q : InternalQueueState Q)
      → lookup p.priority s.queue_id_to_index ≡ some k
      → get_elem? s.queues k ≡ some q
      → stores s p ≡ (a.enqueue q.packet_queue p).1
  unfolding stores
  stores_known s p k q e g = rw (e, stores) (rw (g, stores) refl)

  -- From a consistent state, `enqueue` keeps the state consistent, and adds the packet to those
  -- held if it stores it, else nothing.
  pub enqueue-IsWeighted :
      (s : WrrScheduler Q) (p : PacketDescriptor)
      → IsWeighted s
      → IsWeighted (enqueue s p).0 × AddsIf (stores s p) (packets s) p (packets (enqueue s p).0)
  enqueue-IsWeighted s p v = elim (Option-cases (lookup p.priority s.queue_id_to_index)) [
    | inl e ↦ rw (enqueue_unknown s p v e) (v, rw (AddsIf, stores_unknown s p e) refl)
    | inr (k, e) ↦
        let (q, g) = get_elem?-total s.queues k (v.mapped p.priority k e) in
        rw (enqueue_known s p k q v e g, stores_known s p k q e g) (enqueue_in_lem s k p q g v)
  ]

  -- The scheduler says that it is empty exactly when no queue holds a packet.
  pub is_empty-packets : (s : WrrScheduler Q) → IsWeighted s → is_empty s ≡ ok (null (packets s))
  unfolding is_empty
  is_empty-packets s v =
      let c = v.configured in
      let t = v.total in
      elim (List-cases (packets s)) [
        | inl e ↦ ground (arith, e)
        | inr (p, ps, e) ↦ ground (arith, e)
      ]

  instance abbrev pub wrr : Scheduler (WrrScheduler Q)
  wrr = record { enqueue = enqueue; dequeue = dequeue; is_empty = is_empty }

  -- The WRR scheduler meets the contract of the interface.
  unfoldable pub wrr-IsScheduler : IsScheduler (WrrScheduler Q)
  wrr-IsScheduler = record {
    Inv = IsWeighted;
    packets = packets;
    stores = stores;
    enqueue-Inv = λ s p v. (enqueue-IsWeighted s p v).0;
    dequeue-Inv = λ s v. (dequeue-IsWeighted s v).0;
    is_empty_lem = is_empty-packets;
    packets-enqueue = λ s p v. (enqueue-IsWeighted s p v).1;
    packets-dequeue = λ s v. (dequeue-IsWeighted s v).1;
  }
