-- ===== src/Scheduler/Drr/Visits.antt =====
-- One round of the loop of `dequeue`, in the three cases that occur.
use hqts.Base.{
  ℕ, suc, ◌+◌, ◌≤◌, ◌<◌, ◌≡◌, ◌∙◌, inl, inr, List, [], ◌∷◌, some, get_elem?, get_elem?-total,
  if◌then◌else◌, Result, ok, arith, List-cases, leb, le→leb, lt→leb,
}
use native.Mathlib.Decide.{dec_le}
use hqts.Packet.{PacketDescriptor}
use hqts.Aqm.Interface.{AqmQueue}
use hqts.Scheduler.Drr.Invariant.{contents_of, IsQuantized, topped_up, sent, waited, passed}
use hqts.Scheduler.Drr.{
  DrrScheduler, InternalQueueState, returned, moved_on, serve, try_front, visit_queue, visit,
  search,
}

module _ {Q : Type 0} ⦃a : AqmQueue Q⦄ where
  serve_lem :
      (s : DrrScheduler Q) (q : InternalQueueState Q) (p : PacketDescriptor)
      (ps : List PacketDescriptor)
      → contents_of q ≡ p ∷ ps
      → serve s (topped_up q) p.packet_length_bytes
        ≡ returned (sent s q p.packet_length_bytes) (ok p)
  unfolding serve
  serve_lem s q p ps e = let (first, _) = a.dequeue_first q.packet_queue p ps e in rw (first, serve)

  try_front_lem :
      (s : DrrScheduler Q) (q : InternalQueueState Q) (p : PacketDescriptor)
      (ps : List PacketDescriptor)
      → contents_of q ≡ p ∷ ps
      → try_front s (topped_up q) ≡ (
          if leb p.packet_length_bytes (q.deficit_counter + q.quantum_bytes)
          then serve s (topped_up q) p.packet_length_bytes
          else moved_on (waited s q))
  unfolding try_front
  try_front_lem s q p ps e = rw (a.front_first q.packet_queue p ps e, try_front)

  visit_found :
      (s : DrrScheduler Q) (q : InternalQueueState Q)
      → get_elem? s.queues s.current_queue_index ≡ some q
      → visit s ≡ visit_queue s q
  unfolding visit
  visit_found s q g = rw (g, visit)

  pub visit_empty :
      (s : DrrScheduler Q) (q : InternalQueueState Q)
      → get_elem? s.queues s.current_queue_index ≡ some q
      → contents_of q ≡ []
      → visit s ≡ moved_on (passed s)
  visit_empty s q g e =
      visit_found s q g ∙ (unfold visit_queue in rw (a.is_empty_lem q.packet_queue, e))

  visit_held :
      (s : DrrScheduler Q) (q : InternalQueueState Q) (p : PacketDescriptor)
      (ps : List PacketDescriptor)
      → get_elem? s.queues s.current_queue_index ≡ some q
      → contents_of q ≡ p ∷ ps
      → visit s ≡ try_front s (topped_up q)
  visit_held s q p ps g e =
      visit_found s q g ∙ (unfold visit_queue in rw (a.is_empty_lem q.packet_queue, e))

  pub visit_sends :
      (s : DrrScheduler Q) (q : InternalQueueState Q) (p : PacketDescriptor)
      (ps : List PacketDescriptor)
      → get_elem? s.queues s.current_queue_index ≡ some q
      → contents_of q ≡ p ∷ ps
      → p.packet_length_bytes ≤ q.deficit_counter + q.quantum_bytes
      → visit s ≡ returned (sent s q p.packet_length_bytes) (ok p)
  visit_sends s q p ps g e h =
      visit_held s q p ps g e ∙ try_front_lem s q p ps e ∙ rw (le→leb _ _ h) (serve_lem s q p ps e)

  pub visit_waits :
      (s : DrrScheduler Q) (q : InternalQueueState Q) (p : PacketDescriptor)
      (ps : List PacketDescriptor)
      → get_elem? s.queues s.current_queue_index ≡ some q
      → contents_of q ≡ p ∷ ps
      → q.deficit_counter + q.quantum_bytes < p.packet_length_bytes
      → visit s ≡ moved_on (waited s q)
  visit_waits s q p ps g e h =
      visit_held s q p ps g e ∙ try_front_lem s q p ps e ∙ rw (lt→leb _ _ h)

  -- A round sends the front packet of the current queue, or tops the queue up, or passes it over.
  pub data VisitCase (s : DrrScheduler Q) : Type 0 where
    sends :
        (q : InternalQueueState Q) (p : PacketDescriptor) (ps : List PacketDescriptor)
        → get_elem? s.queues s.current_queue_index ≡ some q
        → contents_of q ≡ p ∷ ps
        → p.packet_length_bytes ≤ q.deficit_counter + q.quantum_bytes
        → VisitCase s
    waits :
        (q : InternalQueueState Q) (p : PacketDescriptor) (ps : List PacketDescriptor)
        → get_elem? s.queues s.current_queue_index ≡ some q
        → contents_of q ≡ p ∷ ps
        → q.deficit_counter + q.quantum_bytes < p.packet_length_bytes
        → VisitCase s
    passes :
        (q : InternalQueueState Q)
        → get_elem? s.queues s.current_queue_index ≡ some q
        → contents_of q ≡ []
        → VisitCase s

  pub visit_cases : (s : DrrScheduler Q) → IsQuantized s → VisitCase s
  visit_cases s v =
      let (q, g) = get_elem?-total s.queues s.current_queue_index v.index in
      elim (List-cases (contents_of q)) [
        | inl e ↦ passes q g e
        | inr (p, ps, e) ↦
            elim (dec_le p.packet_length_bytes (q.deficit_counter + q.quantum_bytes)) [
              | yes h ↦ sends q p ps g e h
              | no h ↦ waits q p ps g e (omega arith)
            ]
      ]

  -- The loop, by the outcome of one round.
  pub search_returned :
      (s : DrrScheduler Q) (n : ℕ) (t : DrrScheduler Q) (r : Result PacketDescriptor)
      → visit s ≡ returned t r
      → search s (suc n) ≡ (t, r)
  unfolding search
  search_returned s n t r e = rw (e, search)

  pub search_moved :
      (s : DrrScheduler Q) (n : ℕ) (t : DrrScheduler Q)
      → visit s ≡ moved_on t
      → search s (suc n) ≡ search t n
  unfolding search
  search_moved s n t e = rw (e, search)
