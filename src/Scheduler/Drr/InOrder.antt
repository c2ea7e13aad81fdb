-- ===== src/Scheduler/Drr/InOrder.antt =====
-- The queues of the DRR scheduler as queues for the priorities.
use native.Mathlib.Decide.{ℕ_discrete}
use hqts.Base.{
  ℕ, zero, suc, ◌≡◌, refl, ◌∙◌, inl, inr, List, ◌∷◌, some, length, get_elem?, get_elem?-total,
  Result, ok, err, lookup, Option-cases, Bool-cases, ltb, ◌*◌, ◌+◌, ◌-◌,
}
use hqts.Packet.{PacketDescriptor}
use hqts.Aqm.Interface.{AqmQueue}
use hqts.Scheduler.Rows.{row, row-set_same}
use hqts.Scheduler.Lanes.{set-Leaves, set-Enters, Leaves, Enters, HasLanes}
use hqts.Scheduler.Drr.Invariant.{
  contents_of, IsQuantized, topped_up, sent, waited, passed, waited_lem, passed_lem,
}
use hqts.Scheduler.Drr.Visits.{
  sends, waits, passes, visit_cases, visit_sends, visit_waits, visit_empty, search_moved,
  search_returned,
}
use hqts.Scheduler.Drr.Order.{
  dequeue_search, dequeue_empty, dequeue-IsQuantized, enqueue-IsQuantized, enqueue_known,
  enqueue_unknown, drr,
}
use hqts.Scheduler.Drr.{DrrScheduler, InternalQueueState, search, dequeue, enqueue, enqueue_in}

module _ {Q : Type 0} ⦃a : AqmQueue Q⦄ where
  abbrev pub queue_row : DrrScheduler Q → ℕ → List PacketDescriptor
  queue_row s = row contents_of s.queues

  -- What a call that leaves `t` and returns `r` may do to the queues.
  abbrev pub LeavesOne : DrrScheduler Q → DrrScheduler Q × Result PacketDescriptor → Type 0
  LeavesOne s (t, r) =
      (t.queue_id_to_index ≡ s.queue_id_to_index) × Leaves (queue_row s) r (queue_row t)

  sent-LeavesOne :
      (s : DrrScheduler Q) (q : InternalQueueState Q) (p : PacketDescriptor)
      (ps : List PacketDescriptor)
      → get_elem? s.queues s.current_queue_index ≡ some q
      → contents_of q ≡ p ∷ ps
      → LeavesOne s (sent s q p.packet_length_bytes, ok p)
  sent-LeavesOne s q p ps g e =
      let w : InternalQueueState Q = record q {
        packet_queue = (a.dequeue q.packet_queue).0;
        deficit_counter = q.deficit_counter + q.quantum_bytes - p.packet_length_bytes;
      } in
      let rest = (a.dequeue_first q.packet_queue p ps e).1 in
      (refl, set-Leaves contents_of s.queues s.current_queue_index q w p ps g e rest)

  later :
      (s u t : DrrScheduler Q) (r : Result PacketDescriptor)
      → u.queue_id_to_index ≡ s.queue_id_to_index
      → ((k : ℕ) → queue_row u k ≡ queue_row s k)
      → LeavesOne u (t, r)
      → LeavesOne s (t, r)
  later s u t (ok p) m same (n, (i, first, others)) =
      (n ∙ m, (i, rw (same i) at first, λ k ne. others k ne ∙ same k))
  later s u t (err e) m same (n, all) = (n ∙ m, λ k. all k ∙ same k)

  search-LeavesOne : (s : DrrScheduler Q) (n : ℕ) → IsQuantized s → LeavesOne s (search s n)
  unfolding search
  search-LeavesOne s zero v = elim (Bool-cases (ltb 0 s.total_packets)) [
    | inl e ↦ rw (e, search) (refl, λ k. refl)
    | inr e ↦ rw (e, search) (refl, λ k. refl)
  ]
  search-LeavesOne s (suc n) v = elim (visit_cases s v) [
    | sends q p ps g e h ↦
        rw (search_returned s n _ _ (visit_sends s q p ps g e h)) (sent-LeavesOne s q p ps g e)
    | waits q p ps g e h ↦
        let (t, r) = search (waited s q) n in
        rw (search_moved s n _ (visit_waits s q p ps g e h)) (
          later s (waited s q) t r refl
            (row-set_same contents_of s.queues s.current_queue_index q (topped_up q) g refl)
            (search-LeavesOne (waited s q) n (waited_lem s q v g).0))
    | passes q g e ↦
        let (t, r) = search (passed s) n in
        rw (search_moved s n _ (visit_empty s q g e))
          (later s (passed s) t r refl (λ k. refl) (search-LeavesOne (passed s) n (passed_lem s v)))
  ]

  pub dequeue-LeavesOne : (s : DrrScheduler Q) → IsQuantized s → LeavesOne s (dequeue s)
  dequeue-LeavesOne s v = elim (ℕ_discrete s.total_packets 0) [
    | yes h ↦ rw (dequeue_empty s v h) (refl, λ k. refl)
    | no h ↦ rw (dequeue_search s v h) (search-LeavesOne s (length s.queues * 2) v)
  ]

  abbrev pub EntersOne : DrrScheduler Q → PacketDescriptor → DrrScheduler Q → Type 0
  EntersOne s p t =
      (t.queue_id_to_index ≡ s.queue_id_to_index)
      × Enters (queue_row s) p (lookup p.priority s.queue_id_to_index) (queue_row t)

  pub enqueue-EntersOne :
      (s : DrrScheduler Q) (p : PacketDescriptor) → IsQuantized s → EntersOne s p (enqueue s p).0
  unfolding enqueue_in
  enqueue-EntersOne s p v = elim (Option-cases (lookup p.priority s.queue_id_to_index)) [
    | inl e ↦ rw (enqueue_unknown s p v e) (refl, inl (λ k. refl))
    | inr (i, e) ↦
        let (q, g) = get_elem?-total s.queues i (v.mapped p.priority i e) in
        let w : InternalQueueState Q = record q { packet_queue = (a.enqueue q.packet_queue p).0 } in
        rw (enqueue_known s p i q v e g) (
          refl,
          set-Enters contents_of s.queues i q w p (lookup p.priority s.queue_id_to_index)
              (a.enqueue q.packet_queue p).1 g e (a.contents-enqueue q.packet_queue p),
        )
  ]

  -- The DRR scheduler has a queue for each priority.
  unfoldable pub drr-HasLanes : HasLanes (DrrScheduler Q)
  drr-HasLanes = record {
    Inv = IsQuantized;
    lane = queue_row;
    lane_of = λ s c. lookup c s.queue_id_to_index;
    enqueue-Inv = λ s p v. (enqueue-IsQuantized s p v).0;
    dequeue-Inv = λ s v. (dequeue-IsQuantized s v).0;
    lane_of-enqueue = λ s p c v. rw ((enqueue-EntersOne s p v).0) refl;
    lane_of-dequeue = λ s c v. rw ((dequeue-LeavesOne s v).0) refl;
    lane-enqueue = λ s p v. (enqueue-EntersOne s p v).1;
    lane-dequeue = λ s v. (dequeue-LeavesOne s v).1;
  }
