-- ===== src/Scheduler/StrictPriority/Invariant.antt =====
-- The count of packets, and the strict priority scheduler as a bag of packets.
use hqts.Base.{
  ℕ, ◌-◌, ◌≡◌, inl, inr, List, ◌∷◌, some, length, get_elem?, set, length-set, ok, arith, Bool-cases,
}
use hqts.Packet.{PacketDescriptor}
use hqts.Aqm.Interface.{AqmQueue}
use hqts.Scheduler.Bank.{all_packets, all_packets-set_same, all_packets-set_push, length-Perm}
use hqts.Scheduler.Interface.{AddsIf}
use hqts.Scheduler.StrictPriority.{StrictPriorityScheduler, enqueue_in, serve}

module _ {Q : Type 0} ⦃a : AqmQueue Q⦄ where
  abbrev pub packets : StrictPriorityScheduler Q → List PacketDescriptor
  packets s = all_packets a.contents s.priority_queues

  pub record IsLevelled (s : StrictPriorityScheduler Q) : Type 0 where
    pub levels : s.num_levels ≡ length s.priority_queues
    pub total : s.total_packets ≡ length (packets s)

  -- Storing in a queue, split by the queue's answer.
  pub enqueue_in-packets :
      (s : StrictPriorityScheduler Q) (i : ℕ) (p : PacketDescriptor) (q : Q)
      → get_elem? s.priority_queues i ≡ some q
      → AddsIf (a.enqueue q p).1 (packets s) p (packets (enqueue_in s i p (some q)).0)
  unfolding enqueue_in
  enqueue_in-packets s i p q g = elim (Bool-cases (a.enqueue q p).1) [
    | inl e ↦ rw e (
        all_packets-set_push a.contents s.priority_queues i q (a.enqueue q p).0 p g
          (rw e at (a.contents-enqueue q p)))
    | inr e ↦ rw e (
        all_packets-set_same a.contents s.priority_queues i q (a.enqueue q p).0 g
          (rw e at (a.contents-enqueue q p)))
  ]

  pub enqueue_in-IsLevelled :
      (s : StrictPriorityScheduler Q) (i : ℕ) (p : PacketDescriptor) (q : Q)
      → get_elem? s.priority_queues i ≡ some q
      → IsLevelled s
      → IsLevelled (enqueue_in s i p (some q)).0
  unfolding enqueue_in
  enqueue_in-IsLevelled s i p q g v = record {
    levels = omega (arith, length-set s.priority_queues i (a.enqueue q p).0, v.levels);
    total = elim (Bool-cases (a.enqueue q p).1) [
      | inl e ↦ rw e (
          omega (
            arith,
            v.total,
            length-Perm (
                all_packets-set_push a.contents s.priority_queues i q (a.enqueue q p).0 p g
                  (rw e at (a.contents-enqueue q p))),
          ))
      | inr e ↦
          rw
            (
              e,
              all_packets-set_same a.contents s.priority_queues i q (a.enqueue q p).0 g
                  (rw e at (a.contents-enqueue q p)),
            )
            v.total
    ];
  }

  -- A queue that holds a packet hands out its first one.
  pub serve_lem :
      (s : StrictPriorityScheduler Q) (i : ℕ) (q : Q) (p : PacketDescriptor)
      (ps : List PacketDescriptor)
      → a.contents q ≡ p ∷ ps
      → serve s i q ≡ (
        record s {
          priority_queues = set s.priority_queues i (a.dequeue q).0;
          total_packets = s.total_packets - 1;
        },
        ok p,
      )
  unfolding serve
  serve_lem s i q p ps e = let (first, _) = a.dequeue_first q p ps e in rw (first, serve)
