-- ===== src/Scheduler/Drr/Oversized.antt =====
-- Queues whose first packets are longer than two quanta.
use native.Mathlib.Decide.{ℕ_discrete}
use mathlib.Core.Option.{some-injective}
use hqts.Base.{
  ℕ, zero, suc, ◌+◌, ◌*◌, ◌%◌, ◌<◌, ◌≡◌, ◌≢◌, refl, sym, ap, subst, ◌∙◌, List, [], ◌∷◌, some,
  length, length-set, get_elem?, get_elem?-set_ne, get_elem?-set_self, get_elem?_bound, set, err,
  logic_error, arith,
}
use hqts.Packet.{PacketDescriptor}
use hqts.Aqm.Interface.{AqmQueue}
use hqts.Scheduler.Drr.Invariant.{
  contents_of, IsQuantized, topped_up, waited, passed, waited_lem, passed_lem,
}
use hqts.Scheduler.Drr.Visits.{
  sends, waits, passes, visit_cases, visit_waits, visit_empty, search_moved,
}
use hqts.Scheduler.Drr.Order.{dequeue_search}
use hqts.Scheduler.Drr.{DrrScheduler, InternalQueueState, search, dequeue}
use hqts.Scheduler.Drr.Rounds.{visits, visits_twice}

module _ {Q : Type 0} ⦃a : AqmQueue Q⦄ where
  -- Of `m` queues, none can send within `left` rounds.
  abbrev Hopeless : DrrScheduler Q → ℕ → ℕ → Type 0
  Hopeless s m left =
      (k : ℕ) (q : InternalQueueState Q) (p : PacketDescriptor) (ps : List PacketDescriptor)
      → get_elem? s.queues k ≡ some q
      → contents_of q ≡ p ∷ ps
      → q.deficit_counter + q.quantum_bytes * visits s.current_queue_index m left k
        < p.packet_length_bytes

  Hopeless-now :
      (s : DrrScheduler Q) (m n : ℕ) (q : InternalQueueState Q) (p : PacketDescriptor)
      (ps : List PacketDescriptor)
      → Hopeless s m (suc n)
      → get_elem? s.queues s.current_queue_index ≡ some q
      → contents_of q ≡ p ∷ ps
      → q.deficit_counter + q.quantum_bytes < p.packet_length_bytes
  unfolding visits
  Hopeless-now s m n q p ps h g e = let x = h s.current_queue_index q p ps g e in ground arith

  topped_up_one :
      (s : DrrScheduler Q) (w q : InternalQueueState Q)
      → s.current_queue_index < length s.queues
      → get_elem? (set s.queues s.current_queue_index (topped_up w)) s.current_queue_index ≡ some q
      → topped_up w ≡ q
  topped_up_one s w q l g =
      some-injective _ _
        (sym (get_elem?-set_self s.queues s.current_queue_index (topped_up w) l) ∙ g)

  waited-Hopeless :
      (s : DrrScheduler Q) (w : InternalQueueState Q) (m n : ℕ)
      → m ≡ length s.queues
      → get_elem? s.queues s.current_queue_index ≡ some w
      → s.current_queue_index < length s.queues
      → Hopeless s m (suc n)
      → Hopeless (waited s w) m n
  unfolding visits
  waited-Hopeless s w m n em g l h k q p ps gk e = elim (ℕ_discrete s.current_queue_index k) [
    | yes same ↦
        let here =
          subst (λ (j : ℕ). get_elem? (set s.queues s.current_queue_index (topped_up w)) j ≡ some q)
            (sym same) gk in
        let one : topped_up w ≡ q = topped_up_one s w q l here in
        let x = h s.current_queue_index w p ps g (ap contents_of one ∙ e) in
        let y : w.deficit_counter
              + w.quantum_bytes
                * (1 + visits ((s.current_queue_index + 1) % m) m n s.current_queue_index)
            < p.packet_length_bytes =
          ground arith in
        rw (← one, ← em, ← same) (omega arith)
    | no ne ↦
        let x = h k q p ps (sym (get_elem?-set_ne s.queues (topped_up w) ne) ∙ gk) e in
        let y : q.deficit_counter + q.quantum_bytes * visits ((s.current_queue_index + 1) % m) m n k
            < p.packet_length_bytes =
          ground arith in
        rw (← em) y
  ]

  passed-Hopeless :
      (s : DrrScheduler Q) (w : InternalQueueState Q) (m n : ℕ)
      → m ≡ length s.queues
      → get_elem? s.queues s.current_queue_index ≡ some w
      → contents_of w ≡ []
      → Hopeless s m (suc n)
      → Hopeless (passed s) m n
  unfolding visits
  passed-Hopeless s w m n em g none_here h k q p ps gk e =
      elim (ℕ_discrete s.current_queue_index k) [
        | yes same ↦
            let here = subst (λ (j : ℕ). get_elem? s.queues j ≡ some q) (sym same) gk in
            let one : w ≡ q = some-injective _ _ (sym g ∙ here) in cc
        | no ne ↦
            let x = h k q p ps gk e in
            let y : q.deficit_counter
                  + q.quantum_bytes * visits ((s.current_queue_index + 1) % m) m n k
                < p.packet_length_bytes =
              ground arith in
            rw (← em) y
      ]

  search-Hopeless :
      (s : DrrScheduler Q) (m n : ℕ)
      → IsQuantized s
      → m ≡ length s.queues
      → s.total_packets ≢ 0
      → Hopeless s m n
      → (search s n).1 ≡ err logic_error
  unfolding search
  search-Hopeless s m zero v em held h = ground arith
  search-Hopeless s m (suc n) v em held h = elim (visit_cases s v) [
    | sends q p ps g e l ↦ absurd (omega (arith, Hopeless-now s m n q p ps h g e))
    | waits q p ps g e l ↦ rw (search_moved s n _ (visit_waits s q p ps g e l)) (
        search-Hopeless (waited s q) m n (waited_lem s q v g).0
          (omega (arith, length-set s.queues s.current_queue_index (topped_up q))) held
          (waited-Hopeless s q m n em g v.index h))
    | passes q g e ↦
        rw (search_moved s n _ (visit_empty s q g e)) (
          search-Hopeless (passed s) m n (passed_lem s v) em held
            (passed-Hopeless s q m n em g e h))
  ]

  -- From a consistent state that holds a packet, if the first packet of every queue is longer than
  -- its deficit and two quanta, `dequeue` throws the logic error.
  pub dequeue_gives_up :
      (s : DrrScheduler Q)
      → IsQuantized s
      → s.total_packets ≢ 0
      → ((k : ℕ) (q : InternalQueueState Q) (p : PacketDescriptor) (ps : List PacketDescriptor)
          → get_elem? s.queues k ≡ some q
          → contents_of q ≡ p ∷ ps
          → q.deficit_counter + q.quantum_bytes * 2 < p.packet_length_bytes)
      → (dequeue s).1 ≡ err logic_error
  dequeue_gives_up s v held h = rw (dequeue_search s v held) (
      search-Hopeless s (length s.queues) (length s.queues * 2) v refl held λ k q p ps g e.
        rw
          (visits_twice s.current_queue_index (length s.queues) k v.index
            (get_elem?_bound s.queues k g))
          (h k q p ps g e))
