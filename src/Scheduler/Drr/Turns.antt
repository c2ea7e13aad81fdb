-- ===== src/Scheduler/Drr/Turns.antt =====
-- `dequeue` of the DRR scheduler where each first packet is covered: by its deficit and a quantum.
use mathlib.Core.Option.{some-injective}
use native.Mathlib.Nat.{mod-add-mod, mod-eq_of_lt}
use hqts.Base.{
  ℕ, zero, suc, ◌+◌, ◌*◌, ◌%◌, ◌≤◌, ◌<◌, ◌≡◌, sym, ap, ◌∙◌, List, [], ◌∷◌, some, length, get_elem?,
  Result, ok, arith,
}
use hqts.Packet.{PacketDescriptor}
use hqts.Aqm.Interface.{AqmQueue}
use hqts.Scheduler.Drr.Invariant.{contents_of, IsQuantized, sent, passed, passed_lem}
use hqts.Scheduler.Drr.Visits.{
  sends, waits, passes, visit_cases, visit_sends, visit_empty, search_returned, search_moved,
}
use hqts.Scheduler.Drr.Order.{dequeue_search}
use hqts.Scheduler.Drr.Progress.{step_nearer, passes_elsewhere, IsReady, total_pos}
use hqts.Scheduler.Drr.{DrrScheduler, InternalQueueState, search, dequeue}

module _ {Q : Type 0} ⦃a : AqmQueue Q⦄ where
  -- The first packet of every queue that holds one can be sent at the queue's next turn.
  abbrev pub Covered : DrrScheduler Q → Type 0
  Covered s =
      (k : ℕ) (q : InternalQueueState Q) (p : PacketDescriptor) (ps : List PacketDescriptor)
      → get_elem? s.queues k ≡ some q
      → contents_of q ≡ p ∷ ps
      → p.packet_length_bytes ≤ q.deficit_counter + q.quantum_bytes

  -- The queue that round `i` of the search comes to.
  abbrev pub place : DrrScheduler Q → ℕ → ℕ
  place s i = (s.current_queue_index + i) % length s.queues

  -- The state in which that queue has its turn.
  abbrev pub at_place : DrrScheduler Q → ℕ → DrrScheduler Q
  at_place s i = record s { current_queue_index = place s i }

  -- No packet waits on the `n` places from the current queue on.
  abbrev pub NoneBefore : DrrScheduler Q → ℕ → Type 0
  NoneBefore s n =
      (j : ℕ) (v : InternalQueueState Q)
      → j < n
      → get_elem? s.queues (place s j) ≡ some v
      → contents_of v ≡ []

  -- The call sends the first packet of the first queue that holds one, `d` rounds away at most.
  pub record IsFirst (s : DrrScheduler Q) (d : ℕ) (r : DrrScheduler Q × Result PacketDescriptor)
      : Type 0 where
    pub round : ℕ
    pub queue : InternalQueueState Q
    pub packet : PacketDescriptor
    pub rest : List PacketDescriptor
    pub found : get_elem? s.queues (place s round) ≡ some queue
    pub waiting : contents_of queue ≡ packet ∷ rest
    pub near : round ≤ d
    pub before : NoneBefore s round
    pub result : r ≡ (sent (at_place s round) queue packet.packet_length_bytes, ok packet)

  place-passed : (s : DrrScheduler Q) (i : ℕ) → place (passed s) i ≡ place s (suc i)
  place-passed s i =
      let e : s.current_queue_index + 1 + i ≡ s.current_queue_index + suc i = omega arith in
      mod-add-mod (s.current_queue_index + 1) (length s.queues) i
      ∙ ap (λ (t : ℕ). t % length s.queues) e

  place-zero : (s : DrrScheduler Q) → IsQuantized s → place s 0 ≡ s.current_queue_index
  place-zero s v =
      let e : s.current_queue_index + 0 ≡ s.current_queue_index = omega arith in
      ap (λ (t : ℕ). t % length s.queues) e ∙ mod-eq_of_lt v.index

  with_index : DrrScheduler Q → ℕ → DrrScheduler Q
  with_index s i = record s { current_queue_index = i }

  before_suc :
      (s : DrrScheduler Q) (w : InternalQueueState Q) (n : ℕ)
      → IsQuantized s
      → get_elem? s.queues s.current_queue_index ≡ some w
      → contents_of w ≡ []
      → NoneBefore (passed s) n
      → NoneBefore s (suc n)
  before_suc s w n v g e h zero u l k =
      let one : w ≡ u = some-injective _ _ (sym g ∙ (rw (place-zero s v) at k)) in
      sym (ap contents_of one) ∙ e
  before_suc s w n v g e h (suc j) u l k = h j u (omega arith) (rw (place-passed s j) k)

  passed-IsFirst :
      (s : DrrScheduler Q) (d : ℕ) (w : InternalQueueState Q)
      (r : DrrScheduler Q × Result PacketDescriptor)
      → IsQuantized s
      → get_elem? s.queues s.current_queue_index ≡ some w
      → contents_of w ≡ []
      → IsFirst (passed s) d r
      → IsFirst s (suc d) r
  unfolding with_index
  passed-IsFirst s d w r v g e h = record {
    round = suc h.round;
    queue = h.queue;
    packet = h.packet;
    rest = h.rest;
    found = rw (← place-passed s h.round) h.found;
    waiting = h.waiting;
    near = omega (arith, h.near);
    before = before_suc s w h.round v g e h.before;
    result =
        h.result
        ∙ ap (λ (i : ℕ). (sent (with_index s i) h.queue h.packet.packet_length_bytes, ok h.packet))
            (place-passed s h.round);
  }

  search-IsFirst :
      (s : DrrScheduler Q) (n d k : ℕ) (q : InternalQueueState Q) (p : PacketDescriptor)
      (ps : List PacketDescriptor)
      → IsQuantized s
      → Covered s
      → IsReady s k q p ps
      → (s.current_queue_index + d) % length s.queues ≡ k
      → d < n
      → IsFirst s d (search s n)
  unfolding with_index
  search-IsFirst s zero d k q p ps v c r turn h = absurd (omega arith)
  search-IsFirst s (suc n) d k q p ps v c r turn h = elim (visit_cases s v) [
    | sends w u us g e l ↦ record {
      round = 0;
      queue = w;
      packet = u;
      rest = us;
      found = rw (place-zero s v) g;
      waiting = e;
      near = omega arith;
      before = λ j x low there. absurd (omega arith);
      result =
          search_returned s n _ _ (visit_sends s w u us g e l)
          ∙ ap (λ (i : ℕ). (sent (with_index s i) w u.packet_length_bytes, ok u))
              (sym (place-zero s v));
    }
    | waits w u us g e l ↦ absurd (omega (arith, c s.current_queue_index w u us g e))
    | passes w g e ↦
        let ne = passes_elsewhere s k q w p ps r g e in
        let (b, near, turn') =
          step_nearer s.current_queue_index d (length s.queues) k v.index ne turn in
        let ready : IsReady (passed s) k q p ps = record {
          found = r.found;
          waiting = r.waiting;
          covered = r.covered;
        } in
        let ih =
          search-IsFirst (passed s) n b k q p ps (passed_lem s v) c ready turn' (omega arith) in
        rw (search_moved s n _ (visit_empty s w g e), near) (passed-IsFirst s b w _ v g e ih)
  ]

  -- From a consistent state in which every queue's first packet is covered by its deficit and one
  -- quantum, and queue `k` holds a packet: `dequeue` sends the first packet of the first queue, from
  -- `current_queue_index` on, that holds one, and the turn passes to the queue after it.
  pub dequeue-IsFirst :
      (s : DrrScheduler Q) (d k : ℕ) (q : InternalQueueState Q) (p : PacketDescriptor)
      (ps : List PacketDescriptor)
      → IsQuantized s
      → Covered s
      → get_elem? s.queues k ≡ some q
      → contents_of q ≡ p ∷ ps
      → d < length s.queues
      → (s.current_queue_index + d) % length s.queues ≡ k
      → IsFirst s d (dequeue s)
  dequeue-IsFirst s d k q p ps v c g e l turn =
      let ready : IsReady s k q p ps = record {
        found = g;
        waiting = e;
        covered = c k q p ps g e;
      } in
      rw (dequeue_search s v (total_pos s k q p ps v g e))
        (search-IsFirst s (length s.queues * 2) d k q p ps v c ready turn (omega arith))
