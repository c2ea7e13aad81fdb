-- ===== src/Scheduler/Wrr/Order.antt =====
-- What the WRR scheduler serves, and in which order.
use hqts.Base.{
  ℕ, ◌≡◌, ◌≢◌, refl, ◌∙◌, ◌⊎◌, inl, inr, true, false, List, [], ◌∷◌, none, some, length, get_elem?,
  get_elem?-map, Result, ok, err, arith, runtime_error, ap,
}
use native.Mathlib.Decide.{ℕ_discrete}
use hqts.Packet.{PacketDescriptor}
use hqts.Aqm.Interface.{AqmQueue}
use hqts.Scheduler.Bank.{all_packets_empty}
use hqts.Scheduler.Interface.{TakesOrFails}
use hqts.Scheduler.Wrr.Scan.{IsNext, place, scan_cases}
use hqts.Scheduler.Wrr.Invariant.{
  contents_of, packets, IsWeighted, sent, serve_lem, can_send_lem, sent_lem,
  packets-replenish_all_deficits, replenish_all_deficits-IsWeighted, idle_replenished,
}
use hqts.Scheduler.Wrr.{
  WrrScheduler, InternalQueueState, replenish, replenish_all_deficits, serve, scan, can_send,
  first_pass, second_pass, dequeue,
}

module _ {Q : Type 0} ⦃a : AqmQueue Q⦄ where
  -- In state `s` the queue of round `i` is the first that can send, its first packet is `p`, and
  -- the call sends just that.
  pub record IsSent (s : WrrScheduler Q) (r : WrrScheduler Q × Result PacketDescriptor)
      : Type 0 where
    pub round : ℕ
    pub queue : InternalQueueState Q
    pub packet : PacketDescriptor
    pub rest : List PacketDescriptor
    pub next : IsNext s round queue
    pub waiting : contents_of queue ≡ packet ∷ rest
    pub result : r ≡ (sent s (place s round) queue, ok packet)

  IsSent-sends :
      (s : WrrScheduler Q) {r : WrrScheduler Q × Result PacketDescriptor} (i : ℕ)
      (q : InternalQueueState Q)
      → IsNext s i q
      → r ≡ serve s (place s i) q
      → IsSent s r
  IsSent-sends s i q next e =
      let (p, ps, w) = (can_send_lem q next.ready).0 in
      record {
        round = i;
        queue = q;
        packet = p;
        rest = ps;
        next = next;
        waiting = w;
        result = e ∙ serve_lem s (place s i) q p ps w;
      }

  first_pass_sends :
      (s : WrrScheduler Q) {r : WrrScheduler Q × Result PacketDescriptor}
      → scan s 0 (length s.queues) ≡ some r
      → first_pass s ≡ r
  unfolding first_pass
  first_pass_sends s e = rw (e, first_pass)

  pub first_pass-none :
      (s : WrrScheduler Q)
      → scan s 0 (length s.queues) ≡ none
      → first_pass s ≡ second_pass (replenish_all_deficits s)
  unfolding first_pass
  first_pass-none s e = rw (e, first_pass)

  second_pass_sends :
      (s : WrrScheduler Q) {r : WrrScheduler Q × Result PacketDescriptor}
      → scan s 0 (length s.queues) ≡ some r
      → second_pass s ≡ r
  unfolding second_pass
  second_pass_sends s e = rw (e, second_pass)

  abbrev pub NobodyCanSend : WrrScheduler Q → Type 0
  NobodyCanSend s =
      (k : ℕ) (q : InternalQueueState Q) → get_elem? s.queues k ≡ some q → can_send q ≡ false

  drained :
      (s : WrrScheduler Q)
      → IsWeighted s
      → NobodyCanSend (replenish_all_deficits s)
      → packets s ≡ []
  unfolding replenish_all_deficits
  drained s v idle = all_packets_empty contents_of s.queues λ k q g.
      idle_replenished s k q v g (idle k (replenish q) (get_elem?-map replenish s.queues k q g))

  pub dequeue_first_pass :
      (s : WrrScheduler Q) → s.is_configured ≡ true → s.total_packets ≢ 0 → dequeue s ≡ first_pass s
  unfolding dequeue
  dequeue_first_pass s c h = ground arith

  -- From a consistent scheduler that holds a packet, `dequeue` sends one and does not throw: the
  -- first packet of the first queue, from `current_queue_index` on, that holds a packet and has a
  -- positive deficit. If there is none, all deficits are raised by the weights, and the same rule
  -- then finds one.
  pub dequeue_round_robin :
      (s : WrrScheduler Q)
      → IsWeighted s
      → s.total_packets ≢ 0
      → IsSent s (dequeue s) ⊎ (NobodyCanSend s × IsSent (replenish_all_deficits s) (dequeue s))
  dequeue_round_robin s v h =
      rw (dequeue_first_pass s v.configured h) (elim (scan_cases s v.index) [
        | inl (i, q, next, e) ↦ inl (IsSent-sends s i q next (first_pass_sends s e))
        | inr (e, idle) ↦
            let t = replenish_all_deficits s in
            let w = replenish_all_deficits-IsWeighted s v in
            elim (scan_cases t w.index) [
              | inl (i, q, next, f) ↦
                  inr (idle, IsSent-sends t i q next (first_pass-none s e ∙ second_pass_sends t f))
              | inr (_, still) ↦
                  let gone = ap length (drained s v still) in
                  absurd (h (omega (arith, v.total, gone)))
            ]
      ])

  IsSent-IsWeighted :
      (s : WrrScheduler Q) (r : WrrScheduler Q × Result PacketDescriptor)
      → IsWeighted s
      → IsSent s r
      → IsWeighted r.0 × TakesOrFails (packets s) r.1 (packets r.0)
  IsSent-IsWeighted s r v x =
      rw x.result
        (sent_lem s (place s x.round) x.queue x.packet x.rest v x.next.found x.next.ready x.waiting)

  pub dequeue_empty :
      (s : WrrScheduler Q) → IsWeighted s → s.total_packets ≡ 0 → dequeue s ≡ (s, err runtime_error)
  unfolding dequeue
  dequeue_empty s v h = let c = v.configured in ground arith

  -- From a consistent state, `dequeue` keeps the state consistent; it takes one packet from those
  -- held, and the packet that it takes is the one that it returns, or it throws and keeps them all.
  pub dequeue-IsWeighted :
      (s : WrrScheduler Q)
      → IsWeighted s
      → IsWeighted (dequeue s).0 × TakesOrFails (packets s) (dequeue s).1 (packets (dequeue s).0)
  dequeue-IsWeighted s v = elim (ℕ_discrete s.total_packets 0) [
    | yes h ↦ rw (dequeue_empty s v h) (v, refl)
    | no h ↦ elim (dequeue_round_robin s v h) [
      | inl x ↦ IsSent-IsWeighted s (dequeue s) v x
      | inr (_, x) ↦ rw packets-replenish_all_deficits at (
          IsSent-IsWeighted (replenish_all_deficits s) (dequeue s)
            (replenish_all_deficits-IsWeighted s v) x)
    ]
  ]
