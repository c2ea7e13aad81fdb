-- ===== src/Scheduler/Wrr/Weights.antt =====
-- Weights from 3 * 2 ^ 30 on: as an `int32_t` they are negative, and so is the sum of two of them.
use hqts.Base.{
  ◌*◌, ◌-◌, ◌^◌, ◌≤◌, ◌<◌, ◌≡◌, ◌≢◌, ◌∙◌, inl, inr, true, false, none, length, All, All-map,
  All-mono, All-get_elem?, length-map, err, arith, logic_error,
}
use hqts.Base.Int.{ℤ, pos, negsuc, ◌+ℤ◌}
use hqts.Aqm.Interface.{AqmQueue}
use hqts.Scheduler.Wrr.Scan.{scan_cases}
use hqts.Scheduler.Wrr.Order.{dequeue_first_pass, first_pass-none}
use hqts.Scheduler.Wrr.{
  WrrScheduler, InternalQueueState, replenish, replenish_all_deficits, to_int32, scan, can_send,
  dequeue, second_pass,
}

-- The values of an `int32_t`.
abbrev pub IsInt32 : ℤ → Type 0
IsInt32 (pos n) = n < 2 ^ 31
IsInt32 (negsuc n) = n < 2 ^ 31

-- A weight whose double is negative as an `int32_t`, with the deficit that the constructor gives.
pub record IsOversized {Q : Type 0} (q : InternalQueueState Q) : Type 0 where
  pub large : 3 * 2 ^ 30 ≤ q.weight
  pub word : q.weight < 2 ^ 32
  pub initial : q.current_deficit ≡ to_int32 q.weight

module _ {Q : Type 0} ⦃a : AqmQueue Q⦄ where
  cannot_send :
      (q : InternalQueueState Q)
      → IsOversized q
      → (can_send q ≡ false) × (can_send (replenish q) ≡ false)
  unfolding ◌+ℤ◌
  cannot_send q h =
      let l = h.large in let w = h.word in let i = h.initial in (ground arith, ground arith)

  deficits-IsInt32 :
      (q : InternalQueueState Q)
      → IsOversized q
      → IsInt32 q.current_deficit × IsInt32 (replenish q).current_deficit
  unfolding ◌+ℤ◌
  deficits-IsInt32 q h =
      let l = h.large in
      let w = h.word in
      let i = h.initial in
      let neg : to_int32 q.weight ≡ negsuc (2 ^ 32 - q.weight - 1) = ground arith in
      (rw (i, neg) (omega arith), rw (i, neg) (ground arith))

  scan-none :
      (s : WrrScheduler Q)
      → s.current_queue_index < length s.queues
      → All (λ q. can_send q ≡ false) s.queues
      → scan s 0 (length s.queues) ≡ none
  scan-none s h idle = elim (scan_cases s h) [
    | inr (e, _) ↦ e
    | inl (i, q, next, _) ↦
        let ready = next.ready in
        let idle_q =
          All-get_elem? (λ (x : InternalQueueState Q). can_send x ≡ false) s.queues _ idle
            next.found in
        cc
  ]

  second_pass-none :
      (s : WrrScheduler Q)
      → scan s 0 (length s.queues) ≡ none
      → second_pass s ≡ (s, err logic_error)
  unfolding second_pass
  second_pass-none s e = rw (e, second_pass)

  -- From a configured scheduler that holds a packet, whose current index is in range, if every
  -- queue has a weight of 3 * 2 ^ 30 or more that a `uint32_t` holds, and still the deficit that
  -- the constructor gives, then `dequeue` raises the deficits and throws the logic error; all
  -- deficits fit an `int32_t` before and after, so that none overflows in this call.
  pub dequeue_oversized :
      (s : WrrScheduler Q)
      → s.is_configured ≡ true
      → s.current_queue_index < length s.queues
      → s.total_packets ≢ 0
      → All IsOversized s.queues
      → (dequeue s ≡ (replenish_all_deficits s, err logic_error))
        × All (λ q. IsInt32 q.current_deficit) s.queues
        × All (λ q. IsInt32 q.current_deficit) (dequeue s).0.queues
  unfolding replenish_all_deficits
  dequeue_oversized s c h held big =
      let idle =
        All-mono IsOversized (λ (x : InternalQueueState Q). can_send x ≡ false) s.queues
          (λ q v. (cannot_send q v).0) big in
      let idle' =
        All-map replenish (λ (x : InternalQueueState Q). can_send x ≡ false) s.queues
          (All-mono IsOversized (λ (x : InternalQueueState Q). can_send (replenish x) ≡ false)
            s.queues (λ q v. (cannot_send q v).1) big) in
      let e = scan-none s h idle in
      let e' =
        scan-none (replenish_all_deficits s) (omega (arith, length-map replenish s.queues, h))
          idle' in
      let thrown =
        dequeue_first_pass s c held
        ∙ first_pass-none s e
        ∙ second_pass-none (replenish_all_deficits s) e' in
      let fits =
        All-mono IsOversized (λ (x : InternalQueueState Q). IsInt32 x.current_deficit) s.queues
          (λ q v. (deficits-IsInt32 q v).0) big in
      let fits' =
        All-map replenish (λ (x : InternalQueueState Q). IsInt32 x.current_deficit) s.queues
          (All-mono IsOversized
            (λ (x : InternalQueueState Q). IsInt32 (replenish x).current_deficit) s.queues
            (λ q v. (deficits-IsInt32 q v).1) big) in
      (thrown, fits, rw thrown fits')
