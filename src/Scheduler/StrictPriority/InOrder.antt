-- ===== src/Scheduler/StrictPriority/InOrder.antt =====
-- The levels of the strict priority scheduler as queues for the priorities.
use hqts.Base.{ℕ, refl, inl, inr, List, some, Bool-cases}
use hqts.Packet.{PacketDescriptor}
use hqts.Aqm.Interface.{AqmQueue}
use hqts.Scheduler.Rows.{row}
use hqts.Scheduler.Lanes.{Leaves, Enters, HasLanes, set-Leaves, set-Enters}
use hqts.Scheduler.StrictPriority.Invariant.{IsLevelled}
use hqts.Scheduler.StrictPriority.Order.{
  enqueue_level, enqueue-IsLevelled, dequeue-IsHighest, dequeue-IsLevelled, strict_priority,
}
use hqts.Scheduler.StrictPriority.{StrictPriorityScheduler, enqueue, dequeue, is_empty}

module _ {Q : Type 0} ⦃a : AqmQueue Q⦄ where
  abbrev pub queue_row : StrictPriorityScheduler Q → ℕ → List PacketDescriptor
  queue_row s = row a.contents s.priority_queues

  pub dequeue-Leaves :
      (s : StrictPriorityScheduler Q)
      → IsLevelled s
      → Leaves (queue_row s) (dequeue s).1 (queue_row (dequeue s).0)
  dequeue-Leaves s v = elim (Bool-cases (is_empty s)) [
    | inl e ↦ unfold dequeue in rw e (λ k. refl)
    | inr e ↦
        let (i, q, p, ps, high, rest, done) = dequeue-IsHighest s v e in
        rw done (
          set-Leaves a.contents s.priority_queues i q (a.dequeue q).0 p ps high.found high.waiting
            rest)
  ]

  pub enqueue-Enters :
      (s : StrictPriorityScheduler Q) (p : PacketDescriptor)
      → IsLevelled s
      → Enters (queue_row s) p (some p.priority) (queue_row (enqueue s p).0)
  enqueue-Enters s p v = elim (enqueue_level s p v) [
    | inl (_, e) ↦ rw e (inl (λ k. refl))
    | inr (q, g, _, queues, _) ↦ rw queues (
        set-Enters a.contents s.priority_queues p.priority q (a.enqueue q p).0 p (some p.priority)
          (a.enqueue q p).1 g refl (a.contents-enqueue q p))
  ]

  -- The strict priority scheduler has a queue for each priority.
  unfoldable pub strict_priority-HasLanes : HasLanes (StrictPriorityScheduler Q)
  strict_priority-HasLanes = record {
    Inv = IsLevelled;
    lane = queue_row;
    lane_of = λ s c. some c;
    enqueue-Inv = λ s p v. (enqueue-IsLevelled s p v).0;
    dequeue-Inv = λ s v. (dequeue-IsLevelled s v).0;
    lane_of-enqueue = λ s p c v. refl;
    lane_of-dequeue = λ s c v. refl;
    lane-enqueue = enqueue-Enters;
    lane-dequeue = dequeue-Leaves;
  }
