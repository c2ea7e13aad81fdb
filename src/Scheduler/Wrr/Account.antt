-- ===== src/Scheduler/Wrr/Account.antt =====
-- What one call does to the deficit of a queue, against the packets that it sends from the queue.
use hqts.Base.{
  ℕ, ◌+◌, ◌*◌, ◌≤◌, ◌<◌, ◌≡◌, ◌≢◌, refl, ap, subst, ◌∙◌, inl, inr, true, false, List, ◌∷◌, some,
  length, get_elem?, get_elem?-set_cases, get_elem?-map, All-get_elem?, List-cases, arith, Result,
}
use hqts.Base.Int.{pos, pos_part, ◌+ℤ◌, ◌-ℤ◌}
use hqts.Packet.{PacketDescriptor}
use hqts.Aqm.Interface.{AqmQueue}
use hqts.Scheduler.Wrr.Scan.{place}
use hqts.Scheduler.Wrr.Invariant.{
  contents_of, IsCharged, IsWeighted, sent, can_send_lem, replenish_all_deficits-IsWeighted,
}
use hqts.Scheduler.Wrr.Order.{IsSent, dequeue_round_robin}
use hqts.Scheduler.Wrr.{
  WrrScheduler, InternalQueueState, replenish, replenish_all_deficits, can_send, dequeue,
}

module _ {Q : Type 0} ⦃a : AqmQueue Q⦄ where
  -- A deficit that is not negative, as a number.
  abbrev pub credit : InternalQueueState Q → ℕ
  credit q = pos_part q.current_deficit

  abbrev pub waiting_in : InternalQueueState Q → ℕ
  waiting_in q = length (contents_of q)

  -- Queue `q` became `q'` in a call that replenished `r` times: what was sent was paid for.
  pub record IsPaid (q q' : InternalQueueState Q) (r : ℕ) : Type 0 where
    pub weight : q'.weight ≡ q.weight
    pub paid : credit q' + waiting_in q ≡ credit q + q.weight * r + waiting_in q'
    pub fewer : waiting_in q' ≤ waiting_in q

  IsPaid-refl : (q : InternalQueueState Q) → IsPaid q q 0
  IsPaid-refl q = record { weight = refl; paid = omega arith; fewer = omega arith }

  -- The queue after it has sent its first packet.
  abbrev served : InternalQueueState Q → InternalQueueState Q
  served q = record q {
    packet_queue = (a.dequeue q.packet_queue).0;
    current_deficit = q.current_deficit -ℤ pos 1;
  }

  serve-IsPaid :
      (q : InternalQueueState Q) (p : PacketDescriptor) (ps : List PacketDescriptor)
      → IsCharged q
      → can_send q ≡ true
      → contents_of q ≡ p ∷ ps
      → IsPaid q (served q) 0
  unfolding ◌-ℤ◌
  serve-IsPaid q p ps v ready e =
      let d = v.deficit in
      let c = (can_send_lem q ready).1 in
      let same = ap length ((a.dequeue_first q.packet_queue p ps e).1) in
      let all = ap length e in
      let paid : pos_part (q.current_deficit -ℤ pos 1) + 1 ≡ credit q = ground arith in
      record { weight = refl; paid = omega arith; fewer = omega arith }

  -- Where a round sends, each queue pays for what it sends.
  sent-IsPaid :
      (s : WrrScheduler Q) (k : ℕ) (w : InternalQueueState Q) (p : PacketDescriptor)
      (ps : List PacketDescriptor) (i : ℕ) (q : InternalQueueState Q)
      → IsWeighted s
      → get_elem? s.queues k ≡ some w
      → can_send w ≡ true
      → contents_of w ≡ p ∷ ps
      → get_elem? s.queues i ≡ some q
      → (q' : InternalQueueState Q) × (get_elem? (sent s k w).queues i ≡ some q') × IsPaid q q' 0
  sent-IsPaid s k w p ps i q v g ready e there =
      elim (get_elem?-set_cases s.queues k i (served w) g there) [
        | inl (same, one, here) ↦
            let c = All-get_elem? IsCharged s.queues k v.charged g in
            (
              served w,
              here,
              subst (λ (x : InternalQueueState Q). IsPaid x (served w) 0) one
                  (serve-IsPaid w p ps c ready e),
            )
        | inr (ne, other) ↦ (q, other, IsPaid-refl q)
      ]

  replenish-IsPaid : (q : InternalQueueState Q) → IsCharged q → IsPaid q (replenish q) 1
  unfolding ◌+ℤ◌
  replenish-IsPaid q v =
      let d = v.deficit in
      let f = v.weight_fits in record { weight = refl; paid = ground arith; fewer = omega arith }

  IsPaid-trans : (x y z : InternalQueueState Q) (r : ℕ) → IsPaid x y r → IsPaid y z 0 → IsPaid x z r
  IsPaid-trans x y z r h k = record {
    weight = k.weight ∙ h.weight;
    paid = omega (arith, h.paid, k.paid);
    fewer = omega (arith, h.fewer, k.fewer);
  }

  -- What a call does to every queue, where it replenishes `r` times. It replenishes only if every
  -- queue that holds a packet has spent its deficit.
  pub record IsTurn (s t : WrrScheduler Q) (r : ℕ) : Type 0 where
    pub once : r ≤ 1
    pub each :
        (i : ℕ) (q : InternalQueueState Q)
        → get_elem? s.queues i ≡ some q
        → (q' : InternalQueueState Q) × (get_elem? t.queues i ≡ some q') × IsPaid q q' r
    pub spent :
        (i : ℕ) (q : InternalQueueState Q)
        → get_elem? s.queues i ≡ some q
        → 0 < waiting_in q
        → 0 < r
        → credit q ≡ 0

  IsSent-each :
      (s : WrrScheduler Q) (x : WrrScheduler Q × Result PacketDescriptor) (i : ℕ)
      (q : InternalQueueState Q)
      → IsWeighted s
      → IsSent s x
      → get_elem? s.queues i ≡ some q
      → (q' : InternalQueueState Q) × (get_elem? x.0.queues i ≡ some q') × IsPaid q q' 0
  IsSent-each s x i q v h g = rw h.result (
      sent-IsPaid s (place s h.round) h.queue h.packet h.rest i q v h.next.found h.next.ready
        h.waiting g)

  idle_spent : (q : InternalQueueState Q) → can_send q ≡ false → 0 < waiting_in q → credit q ≡ 0
  idle_spent q idle held = elim (List-cases (contents_of q)) [
    | inl e ↦ absurd (omega (arith, ap length e))
    | inr (p, ps, e) ↦
        let full : a.is_empty q.packet_queue ≡ false = rw (a.is_empty_lem q.packet_queue, e) in
        ground arith
  ]

  -- From a consistent scheduler that holds a packet, `dequeue` pays for what it sends.
  pub dequeue-IsTurn :
      (s : WrrScheduler Q) → IsWeighted s → s.total_packets ≢ 0 → (r : ℕ) × IsTurn s (dequeue s).0 r
  unfolding replenish_all_deficits
  dequeue-IsTurn s v h = elim (dequeue_round_robin s v h) [
    | inl x ↦ (
      0,
      record {
        once = omega arith;
        each = λ i q g. IsSent-each s (dequeue s) i q v x g;
        spent = λ i q g held none. absurd (omega arith);
      },
    )
    | inr (idle, x) ↦ (
      1,
      record {
        once = omega arith;
        each = λ i q g.
            let w = replenish_all_deficits-IsWeighted s v in
            let there = get_elem?-map replenish s.queues i q g in
            let (q', g', k) =
              IsSent-each (replenish_all_deficits s) (dequeue s) i (replenish q) w x there in
            let c = All-get_elem? IsCharged s.queues i v.charged g in
            (q', g', IsPaid-trans q (replenish q) q' 1 (replenish-IsPaid q c) k);
        spent = λ i q g held some_time. idle_spent q (idle i q g) held;
      },
    )
  ]
