-- ===== src/Scheduler/Wrr/InOrder.antt =====
-- The queues of the WRR scheduler as queues for the priorities.
use native.Mathlib.Decide.{ℕ_discrete}
use hqts.Base.{ℕ, ◌≡◌, refl, ◌∙◌, inl, inr, List, Result, ok, err, lookup}
use hqts.Base.Int.{pos, ◌-ℤ◌}
use hqts.Packet.{PacketDescriptor}
use hqts.Aqm.Interface.{AqmQueue}
use hqts.Scheduler.Rows.{row, row-map}
use hqts.Scheduler.Lanes.{set-Leaves, set-Enters, Leaves, Enters, HasLanes}
use hqts.Scheduler.Wrr.Invariant.{contents_of, IsWeighted}
use hqts.Scheduler.Wrr.Scan.{place}
use hqts.Scheduler.Wrr.Order.{IsSent, dequeue_round_robin, dequeue_empty, dequeue-IsWeighted}
use hqts.Scheduler.Wrr.Contract.{enqueue_queue, enqueue-IsWeighted, wrr}
use hqts.Scheduler.Wrr.{
  WrrScheduler, InternalQueueState, replenish, replenish_all_deficits, dequeue, enqueue,
}

module _ {Q : Type 0} ⦃a : AqmQueue Q⦄ where
  abbrev pub queue_row : WrrScheduler Q → ℕ → List PacketDescriptor
  queue_row s = row contents_of s.queues

  -- What a call that leaves `t` and returns `r` may do to the queues.
  abbrev pub LeavesOne : WrrScheduler Q → WrrScheduler Q × Result PacketDescriptor → Type 0
  LeavesOne s (t, r) =
      (t.queue_id_to_index ≡ s.queue_id_to_index) × Leaves (queue_row s) r (queue_row t)

  IsSent-LeavesOne :
      (s : WrrScheduler Q) (r : WrrScheduler Q × Result PacketDescriptor)
      → IsSent s r
      → LeavesOne s r
  IsSent-LeavesOne s r x =
      let w : InternalQueueState Q = record x.queue {
        packet_queue = (a.dequeue x.queue.packet_queue).0;
        current_deficit = x.queue.current_deficit -ℤ pos 1;
      } in
      let i = place s x.round in
      let rest = (a.dequeue_first x.queue.packet_queue x.packet x.rest x.waiting).1 in
      rw x.result (
        refl,
        set-Leaves contents_of s.queues i x.queue w x.packet x.rest x.next.found x.waiting rest,
      )

  replenished :
      (s t : WrrScheduler Q) (r : Result PacketDescriptor)
      → LeavesOne (replenish_all_deficits s) (t, r)
      → LeavesOne s (t, r)
  unfolding replenish_all_deficits
  replenished s t (ok p) (n, (i, first, others)) =
      let same = row-map contents_of replenish (λ q. refl) s.queues in
      (n, (i, rw (same i) at first, λ k ne. others k ne ∙ same k))
  replenished s t (err e) (n, all) =
      (n, λ k. all k ∙ row-map contents_of replenish (λ q. refl) s.queues k)

  pub dequeue-LeavesOne : (s : WrrScheduler Q) → IsWeighted s → LeavesOne s (dequeue s)
  dequeue-LeavesOne s v = elim (ℕ_discrete s.total_packets 0) [
    | yes h ↦ rw (dequeue_empty s v h) (refl, λ k. refl)
    | no h ↦ elim (dequeue_round_robin s v h) [
      | inl x ↦ IsSent-LeavesOne s (dequeue s) x
      | inr (_, x) ↦
          let (t, r) = dequeue s in
          replenished s t r (IsSent-LeavesOne (replenish_all_deficits s) (t, r) x)
    ]
  ]

  abbrev pub EntersOne : WrrScheduler Q → PacketDescriptor → WrrScheduler Q → Type 0
  EntersOne s p t =
      (t.queue_id_to_index ≡ s.queue_id_to_index)
      × Enters (queue_row s) p (lookup p.priority s.queue_id_to_index) (queue_row t)

  pub enqueue-EntersOne :
      (s : WrrScheduler Q) (p : PacketDescriptor) → IsWeighted s → EntersOne s p (enqueue s p).0
  enqueue-EntersOne s p v = elim (enqueue_queue s p v) [
    | inl (_, e) ↦ rw e (refl, inl (λ k. refl))
    | inr (i, q, m, g, e) ↦
        let w : InternalQueueState Q = record q { packet_queue = (a.enqueue q.packet_queue p).0 } in
        rw e (
          refl,
          set-Enters contents_of s.queues i q w p (lookup p.priority s.queue_id_to_index)
              (a.enqueue q.packet_queue p).1 g m (a.contents-enqueue q.packet_queue p),
        )
  ]

  -- The WRR scheduler has a queue for each priority.
  unfoldable pub wrr-HasLanes : HasLanes (WrrScheduler Q)
  wrr-HasLanes = record {
    Inv = IsWeighted;
    lane = queue_row;
    lane_of = λ s c. lookup c s.queue_id_to_index;
    enqueue-Inv = λ s p v. (enqueue-IsWeighted s p v).0;
    dequeue-Inv = λ s v. (dequeue-IsWeighted s v).0;
    lane_of-enqueue = λ s p c v. rw ((enqueue-EntersOne s p v).0) refl;
    lane_of-dequeue = λ s c v. rw ((dequeue-LeavesOne s v).0) refl;
    lane-enqueue = λ s p v. (enqueue-EntersOne s p v).1;
    lane-dequeue = λ s v. (dequeue-LeavesOne s v).1;
  }
