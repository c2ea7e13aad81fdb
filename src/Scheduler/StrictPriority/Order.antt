-- ===== src/Scheduler/StrictPriority/Order.antt =====
-- What the strict priority scheduler promises: each operation on every branch, and the contract of
-- `SchedulerInterface`.
use mathlib.Core.List.{Perm}
use hqts.Base.{
  ℕ, suc, ◌+◌, ◌-◌, ◌≤◌, ◌≡◌, refl, sym, ◌∙◌, ◌⊎◌, inl, inr, Bool, none, false, List, [], ◌∷◌, some,
  length, get_elem?, set, length-set, leb, if◌then◌else◌, ok, err, arith, Bool-cases, List-cases,
  null, ap, out_of_range, invalid_argument, get_elem?_bound, get_elem?-total,
}
use hqts.Packet.{PacketDescriptor}
use hqts.Aqm.Interface.{AqmQueue, AqmFactory}
use hqts.Scheduler.Bank.{all_packets, all_packets_empty, all_packets-set_pop, length-Perm}
use hqts.Scheduler.Interface.{Scheduler, IsScheduler, AddsIf, TakesOrFails}
use hqts.Scheduler.StrictPriority.Invariant.{
  packets, IsLevelled, enqueue_in-packets, enqueue_in-IsLevelled, serve_lem,
}
use hqts.Scheduler.StrictPriority.Scan.{IsHighest, scan_cases}
use hqts.Scheduler.StrictPriority.{
  StrictPriorityScheduler, strict_priority_scheduler, make_queues, enqueue, enqueue_in, is_empty,
  dequeue,
}

module _ {P : Type 0} (Q : Type 0) ⦃a : AqmQueue Q⦄ ⦃f : AqmFactory P Q⦄ where
  abbrev made : List P → (ℕ → ℕ) → ℕ → List Q
  made = make_queues

  make_queues-packets :
      (ps : List P) (clock : ℕ → ℕ) (i : ℕ)
      → (all_packets a.contents (made ps clock i) ≡ []) × (length (made ps clock i) ≡ length ps)
  unfolding make_queues
  make_queues-packets [] clock i = (refl, refl)
  make_queues-packets (p ∷ ps) clock i =
      let (e, l) = make_queues-packets ps clock (suc i) in
      (rw (f.contents-make, e), omega (arith, l))

  -- The constructor refuses an empty list and otherwise makes a consistent scheduler with as many
  -- levels as entries and no packet.
  pub strict_priority_scheduler_cases :
      (ps : List P) (clock : ℕ → ℕ)
      → ((ps ≡ []) × (strict_priority_scheduler {Q = Q} ps clock ≡ err invalid_argument))
        ⊎ ((s : StrictPriorityScheduler Q) × (strict_priority_scheduler ps clock ≡ ok s)
            × IsLevelled s
            × (s.num_levels ≡ length ps)
            × (packets s ≡ []))
  unfolding strict_priority_scheduler
  strict_priority_scheduler_cases [] clock = inl (refl, refl)
  strict_priority_scheduler_cases (p ∷ ps) clock =
      let (e, l) = make_queues-packets (p ∷ ps) clock 0 in
      inr (
        record {
          priority_queues = made (p ∷ ps) clock 0;
          num_levels = length (p ∷ ps);
          total_packets = 0;
        },
        ground arith,
        record { levels = sym l; total = rw e },
        refl,
        e,
      )

module _ {Q : Type 0} ⦃a : AqmQueue Q⦄ where
  -- A packet whose priority is no level is refused and nothing changes. Any other is offered to
  -- the queue of its priority, which stores it last or not at all; no other queue changes.
  pub enqueue_level :
      (s : StrictPriorityScheduler Q) (p : PacketDescriptor)
      → IsLevelled s
      → ((s.num_levels ≤ p.priority) × (enqueue s p ≡ (s, err out_of_range)))
        ⊎ ((q : Q) × (get_elem? s.priority_queues p.priority ≡ some q)
            × ((enqueue s p).1 ≡ ok tt)
            × ((enqueue s p).0.priority_queues ≡ set s.priority_queues p.priority (a.enqueue q p).0)
            × ((enqueue s p).0.total_packets
                ≡ (if (a.enqueue q p).1 then s.total_packets + 1 else s.total_packets)))
  unfolding enqueue enqueue_in
  enqueue_level s p v = elim (Bool-cases (leb s.num_levels p.priority)) [
    | inl e ↦ inl (ground arith, rw e)
    | inr e ↦
        let (q, g) = get_elem?-total s.priority_queues p.priority (ground (arith, v.levels)) in
        inr (q, g, rw (e, g), rw (e, g), rw (e, g))
  ]

  -- Whether `enqueue` stores the packet: its priority is a level, and the queue takes it.
  abbrev pub stores : StrictPriorityScheduler Q → PacketDescriptor → Bool
  stores s p =
      if leb s.num_levels p.priority then false else elim (get_elem? s.priority_queues p.priority) [
        | none ↦ false
        | some q ↦ (a.enqueue q p).1
      ]

  -- From a consistent state, `enqueue` keeps the state consistent, its count right, and adds the
  -- packet to those held if it stores it, else nothing.
  pub enqueue-IsLevelled :
      (s : StrictPriorityScheduler Q) (p : PacketDescriptor)
      → IsLevelled s
      → IsLevelled (enqueue s p).0 × AddsIf (stores s p) (packets s) p (packets (enqueue s p).0)
  unfolding enqueue
  enqueue-IsLevelled s p v = elim (Bool-cases (leb s.num_levels p.priority)) [
    | inl e ↦ rw e (v, refl)
    | inr e ↦
        let (q, g) = get_elem?-total s.priority_queues p.priority (ground (arith, v.levels)) in
        rw (e, g)
          (enqueue_in-IsLevelled s p.priority p q g v, enqueue_in-packets s p.priority p q g)
  ]

  -- From a consistent scheduler that holds a packet, `dequeue` returns the first packet of the
  -- highest queue that holds one, takes it from that queue and changes no other; it does not throw.
  pub dequeue-IsHighest :
      (s : StrictPriorityScheduler Q)
      → IsLevelled s
      → is_empty s ≡ false
      → (i : ℕ) × (q : Q) × (p : PacketDescriptor) × (ps : List PacketDescriptor) × IsHighest s
          s.num_levels i q p ps
        × (a.contents (a.dequeue q).0 ≡ ps)
        × (dequeue s ≡ (
          record s {
            priority_queues = set s.priority_queues i (a.dequeue q).0;
            total_packets = s.total_packets - 1;
          },
          ok p,
        ))
  unfolding dequeue
  dequeue-IsHighest s v e = elim (scan_cases s s.num_levels (omega (arith, v.levels))) [
    | inl (i, q, p, ps, high, served) ↦ (
      i,
      q,
      p,
      ps,
      high,
      (a.dequeue_first q p ps high.waiting).1,
      rw e (served ∙ serve_lem s i q p ps high.waiting),
    )
    | inr (_, empties) ↦
        let none_left = all_packets_empty a.contents s.priority_queues (λ j q g.
          empties j q (omega (arith, v.levels, get_elem?_bound s.priority_queues j g)) g) in
        ground (arith, v.total, none_left)
  ]

  -- The scheduler says that it is empty exactly when no queue holds a packet.
  pub is_empty-packets :
      (s : StrictPriorityScheduler Q) → IsLevelled s → is_empty s ≡ null (packets s)
  is_empty-packets s v = elim (List-cases (packets s)) [
    | inl e ↦ ground (arith, v.total, e)
    | inr (p, ps, e) ↦ ground (arith, v.total, e)
  ]

  take_step :
      (s : StrictPriorityScheduler Q) (i : ℕ) (q : Q) (p : PacketDescriptor)
      (ps : List PacketDescriptor)
      → IsLevelled s
      → IsHighest s s.num_levels i q p ps
      → let t : StrictPriorityScheduler Q = record s {
        priority_queues = set s.priority_queues i (a.dequeue q).0;
        total_packets = s.total_packets - 1;
      } in
        IsLevelled t × Perm (packets s) (p ∷ packets t)
  take_step s i q p ps v high =
      let same = (a.dequeue_first q p ps high.waiting).1 in
      let perm =
        all_packets-set_pop a.contents s.priority_queues i q (a.dequeue q).0 p high.found
          (rw same high.waiting) in
      (
        record {
          levels = omega (arith, v.levels, length-set s.priority_queues i (a.dequeue q).0);
          total = omega (arith, v.total, length-Perm perm);
        },
        perm,
      )

  -- From a consistent state, `dequeue` keeps the state consistent, its count right; it takes one
  -- packet from those held, and the packet that it takes is the one that it returns, or it throws
  -- and keeps them all.
  pub dequeue-IsLevelled :
      (s : StrictPriorityScheduler Q)
      → IsLevelled s
      → IsLevelled (dequeue s).0 × TakesOrFails (packets s) (dequeue s).1 (packets (dequeue s).0)
  dequeue-IsLevelled s v = elim (Bool-cases (is_empty s)) [
    | inl e ↦ unfold dequeue in rw e (v, refl)
    | inr e ↦
        let (i, q, p, ps, high, _, done) = dequeue-IsHighest s v e in
        rw done (take_step s i q p ps v high)
  ]

  instance abbrev pub strict_priority : Scheduler (StrictPriorityScheduler Q)
  strict_priority = record { enqueue = enqueue; dequeue = dequeue; is_empty = λ s. ok (is_empty s) }

  -- The strict priority scheduler meets the contract of the interface.
  unfoldable pub strict_priority-IsScheduler : IsScheduler (StrictPriorityScheduler Q)
  strict_priority-IsScheduler = record {
    Inv = IsLevelled;
    packets = packets;
    stores = stores;
    enqueue-Inv = λ s p v. (enqueue-IsLevelled s p v).0;
    dequeue-Inv = λ s v. (dequeue-IsLevelled s v).0;
    is_empty_lem = λ s v. ap ok (is_empty-packets s v);
    packets-enqueue = λ s p v. (enqueue-IsLevelled s p v).1;
    packets-dequeue = λ s v. (dequeue-IsLevelled s v).1;
  }
