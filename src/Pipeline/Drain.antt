-- ===== src/Pipeline/Drain.antt =====
-- Calls of `get_next_packet_to_transmit` in a row, with the strict priority scheduler.
use hqts.Base.{ℕ, zero, suc, ◌≡◌, refl, ap, ◌∙◌, true, false, List, [], ◌∷◌, Result, ok, arith}
use hqts.Packet.{PacketDescriptor, empty_packet}
use hqts.Policy.Tree.{PolicyTree}
use hqts.Aqm.Interface.{AqmQueue}
use hqts.Scheduler.Interface.{Scheduler}
use hqts.Scheduler.Calls.{followed_by}
use hqts.Scheduler.StrictPriority.{StrictPriorityScheduler, is_empty}
use hqts.Scheduler.StrictPriority.Invariant.{IsLevelled}
use hqts.Scheduler.StrictPriority.Order.{strict_priority}
use hqts.Scheduler.StrictPriority.Drain.{by_level, dequeue-by_level, by_level_empty}
use hqts.Pipeline.{PacketPipeline, get_next_packet_to_transmit}
use hqts.Pipeline.Delivery.{next_empty, next_held}

module _ {T S : Type 0} ⦃tree : PolicyTree T⦄ ⦃scheduling : Scheduler S⦄ where
  -- `n` calls, up to the first that throws.
  pub transmits : ℕ → PacketPipeline T S → PacketPipeline T S × Result (List PacketDescriptor)
  transmits zero s = (s, ok [])
  transmits (suc n) s =
      followed_by (get_next_packet_to_transmit s) (transmits n (get_next_packet_to_transmit s).0)

  transmits-suc :
      (n : ℕ) (s t u : PacketPipeline T S) (p : PacketDescriptor) (ps : List PacketDescriptor)
      → get_next_packet_to_transmit s ≡ (t, ok p)
      → transmits n t ≡ (u, ok ps)
      → transmits (suc n) s ≡ (u, ok (p ∷ ps))
  unfolding transmits
  transmits-suc n s t u p ps e f = rw e (rw f refl)

module _ {T Q : Type 0} ⦃tree : PolicyTree T⦄ ⦃a : AqmQueue Q⦄ where
  drain :
      (n : ℕ) (s : PacketPipeline T (StrictPriorityScheduler Q))
      → IsLevelled s.scheduler
      → s.scheduler.total_packets ≡ n
      → (t : PacketPipeline T (StrictPriorityScheduler Q)) × (transmits n s
          ≡ (t, ok (by_level s.scheduler)))
        × (t.shaper ≡ s.shaper)
        × (get_next_packet_to_transmit t ≡ (t, ok empty_packet))
  unfolding transmits
  drain zero s v e =
      let none_held : is_empty s.scheduler ≡ true = ground arith in
      (s, rw (by_level_empty s.scheduler v e) refl, refl, next_empty s (ap ok none_held))
  drain (suc n) s v e =
      let some_held : is_empty s.scheduler ≡ false = ground arith in
      let (p, q, done, order, count, w) = dequeue-by_level s.scheduler v some_held in
      let u : PacketPipeline T (StrictPriorityScheduler Q) = record s { scheduler = q } in
      let step : get_next_packet_to_transmit s ≡ (u, ok p) =
        next_held s (ap ok some_held) ∙ (rw done refl) in
      let (t, rest, same, last) = drain n u w (omega arith) in
      (t, rw order (transmits-suc n s u t p (by_level q) step rest), same, last)

  -- From a pipeline whose scheduler is consistent, as many calls of `get_next_packet_to_transmit` as
  -- the scheduler counts packets all return a packet of the scheduler, those of the last level
  -- first and each level in its order; the next call returns the empty packet and changes nothing.
  pub transmits-by_level :
      (s : PacketPipeline T (StrictPriorityScheduler Q))
      → IsLevelled s.scheduler
      → (t : PacketPipeline T (StrictPriorityScheduler Q)) × (transmits s.scheduler.total_packets s
          ≡ (t, ok (by_level s.scheduler)))
        × (t.shaper ≡ s.shaper)
        × (get_next_packet_to_transmit t ≡ (t, ok empty_packet))
  transmits-by_level s v = drain s.scheduler.total_packets s v refl
