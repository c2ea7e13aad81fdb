-- ===== src/Scheduler/Drr/Account/Search.antt =====
-- The account of a whole call of `dequeue` of the DRR scheduler, round by round.
use hqts.Base.{ℕ, zero, suc, ◌*◌, ◌≤◌, ◌≢◌, length, arith}
use hqts.Aqm.Interface.{AqmQueue}
use hqts.Scheduler.Drr.Invariant.{IsQuantized, waited, passed, waited_lem, passed_lem}
use hqts.Scheduler.Drr.Visits.{
  sends, waits, passes, visit_cases, visit_sends, visit_waits, visit_empty, search_moved,
  search_returned,
}
use hqts.Scheduler.Drr.Order.{dequeue_search}
use hqts.Scheduler.Drr.Account.{IsTurn, none-IsTurn, sent-IsTurn, waited-IsTurn, passed-IsTurn}
use hqts.Scheduler.Drr.{DrrScheduler, search, dequeue}

module _ {Q : Type 0} ⦃a : AqmQueue Q⦄ where
  search-IsTurn :
      (s : DrrScheduler Q) (n : ℕ) → IsQuantized s → (r : ℕ) × (r ≤ n) × IsTurn s (search s n).0 r
  unfolding search
  search-IsTurn s zero v = (0, omega arith, none-IsTurn s v)
  search-IsTurn s (suc n) v = elim (visit_cases s v) [
    | sends q p ps g e l ↦ (
      1,
      omega arith,
      rw (search_returned s n _ _ (visit_sends s q p ps g e l)) (sent-IsTurn s q p ps v g e l),
    )
    | waits q p ps g e l ↦
        let (r, few, h) = search-IsTurn (waited s q) n (waited_lem s q v g).0 in
        (
          suc r,
          omega arith,
          rw (search_moved s n _ (visit_waits s q p ps g e l))
              (waited-IsTurn s (search (waited s q) n).0 q r v g h),
        )
    | passes q g e ↦
        let (r, few, h) = search-IsTurn (passed s) n (passed_lem s v) in
        (
          suc r,
          omega arith,
          rw (search_moved s n _ (visit_empty s q g e))
              (passed-IsTurn s (search (passed s) n).0 q r g e h),
        )
  ]

  -- From a consistent state that holds a packet, `dequeue` goes some rounds on, two for each queue
  -- at most; it gives each queue that holds a packet a quantum for each round that comes to it, and
  -- the queue's deficit falls by the bytes that it sends.
  pub dequeue_pays :
      (s : DrrScheduler Q)
      → IsQuantized s
      → s.total_packets ≢ 0
      → (n : ℕ) × (n ≤ length s.queues * 2) × IsTurn s (dequeue s).0 n
  dequeue_pays s v held = rw (dequeue_search s v held) (search-IsTurn s (length s.queues * 2) v)
