-- ===== src/Scheduler/StrictPriority/Drain.antt =====
-- All packets of the strict priority scheduler, in the order in which it hands them out.
use hqts.Base.{
  ℕ, zero, suc, ◌-◌, ◌<◌, ◌≡◌, refl, true, false, List, [], ◌∷◌, ◌++◌, some, length,
  get_elem?_bound, length-append, get_elem?, set, ok, arith,
}
use hqts.Packet.{PacketDescriptor}
use hqts.Aqm.Interface.{AqmQueue}
use hqts.Scheduler.Bank.{all_packets}
use hqts.Scheduler.Calls.{dequeues, dequeues-zero, dequeues-suc}
use hqts.Scheduler.StrictPriority.{StrictPriorityScheduler, dequeue, is_empty}
use hqts.Scheduler.StrictPriority.Invariant.{IsLevelled}
use hqts.Scheduler.StrictPriority.Order.{dequeue-IsHighest, dequeue-IsLevelled, strict_priority}

no_packet : (ps : List PacketDescriptor) → length ps ≡ 0 → ps ≡ []
no_packet [] h = refl
no_packet (p ∷ ps) h = absurd (omega arith)

module _ {Q : Type 0} ⦃a : AqmQueue Q⦄ where
  -- The queues one after the other, the last level first, and each as it stands.
  pub downwards : List Q → List PacketDescriptor
  downwards [] = []
  downwards (q ∷ qs) = downwards qs ++ a.contents q

  abbrev pub by_level : StrictPriorityScheduler Q → List PacketDescriptor
  by_level s = downwards s.priority_queues

  downwards_empty :
      (qs : List Q)
      → ((j : ℕ) (v : Q) → get_elem? qs j ≡ some v → a.contents v ≡ [])
      → downwards qs ≡ []
  unfolding downwards
  downwards_empty [] h = refl
  downwards_empty (q ∷ qs) h = rw (downwards_empty qs (λ j v e. h (suc j) v e)) (h 0 q refl)

  downwards-set :
      (qs : List Q) (i : ℕ) (q w : Q) (p : PacketDescriptor)
      → get_elem? qs i ≡ some q
      → a.contents q ≡ p ∷ a.contents w
      → ((j : ℕ) (v : Q) → i < j → get_elem? qs j ≡ some v → a.contents v ≡ [])
      → downwards qs ≡ p ∷ downwards (set qs i w)
  unfolding downwards
  downwards-set [] i q w p g e above = cc
  downwards-set (x ∷ xs) zero q w p g e above =
      let same : x ≡ q = ground arith in
      let none_above = downwards_empty xs (λ j v h. above (suc j) v (omega arith) h) in
      rw (same, e, none_above) refl
  downwards-set (x ∷ xs) (suc i) q w p g e above =
      rw (downwards-set xs i q w p g e (λ j v l h. above (suc j) v (omega arith) h)) refl

  length-downwards : (qs : List Q) → length (downwards qs) ≡ length (all_packets a.contents qs)
  unfolding downwards
  length-downwards [] = refl
  length-downwards (q ∷ qs) = omega (
    arith,
    length-append (downwards qs) (a.contents q),
    length-append (a.contents q) (all_packets a.contents qs),
    length-downwards qs,
  )

  pub dequeue-by_level :
      (s : StrictPriorityScheduler Q)
      → IsLevelled s
      → is_empty s ≡ false
      → (p : PacketDescriptor) × (t : StrictPriorityScheduler Q) × (dequeue s ≡ (t, ok p))
        × (by_level s ≡ p ∷ by_level t)
        × (t.total_packets ≡ s.total_packets - 1)
        × IsLevelled t
  dequeue-by_level s v e =
      let (i, q, p, ps, high, rest, done) = dequeue-IsHighest s v e in
      let w = rw done at (dequeue-IsLevelled s v).0 in
      let same : a.contents q ≡ p ∷ a.contents (a.dequeue q).0 = rw rest high.waiting in
      let order = downwards-set s.priority_queues i q (a.dequeue q).0 p high.found same (λ j u l h.
        high.above_empty j u l (omega (arith, v.levels, get_elem?_bound s.priority_queues j h))
          h) in
      (p, _, done, order, refl, w)

  pub by_level_empty :
      (s : StrictPriorityScheduler Q) → IsLevelled s → s.total_packets ≡ 0 → by_level s ≡ []
  by_level_empty s v e =
      no_packet (by_level s) (omega (arith, v.total, length-downwards s.priority_queues))

  drain :
      (n : ℕ) (s : StrictPriorityScheduler Q)
      → IsLevelled s
      → s.total_packets ≡ n
      → (t : StrictPriorityScheduler Q) × (dequeues n s ≡ (t, ok (by_level s)))
        × IsLevelled t
        × (is_empty t ≡ true)
  drain zero s v e = (s, rw (by_level_empty s v e) (dequeues-zero s), v, ground arith)
  drain (suc n) s v e =
      let (p, t, done, order, count, w) = dequeue-by_level s v (ground arith) in
      let (z, rest, wz, empty) = drain n t w (omega arith) in
      (z, rw order (dequeues-suc n s t z p (by_level t) done rest), wz, empty)

  -- From a consistent state, as many calls of `dequeue` as the scheduler counts packets all return
  -- a packet: they empty the scheduler and return, in order, the queues one after the other, from
  -- the last level down to the first, each as it stood.
  pub dequeues-by_level :
      (s : StrictPriorityScheduler Q)
      → IsLevelled s
      → (t : StrictPriorityScheduler Q) × (dequeues s.total_packets s ≡ (t, ok (by_level s)))
        × IsLevelled t
        × (is_empty t ≡ true)
  dequeues-by_level s v = drain s.total_packets s v refl
