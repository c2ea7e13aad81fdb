-- ===== src/Scheduler/StrictPriority.antt =====
-- hqts/include/hqts/scheduler/strict_priority_scheduler.h and
-- hqts/src/scheduler/strict_priority_scheduler.cpp, over any AQM queue. `total_packets_` counts
-- packets in memory, so it is a number that does not wrap.
pub mod Invariant
pub mod Scan
pub mod Order
pub mod Drain
pub mod Preempt
pub mod InOrder
use hqts.Base.{
  ℕ, zero, suc, ◌+◌, ◌-◌, ◌==◌, Bool, true, false, List, [], ◌∷◌, Option, none, some, length,
  get_elem?, set, leb, if◌then◌else◌, Result, ok, err, invalid_argument, out_of_range,
  runtime_error, logic_error, undefined,
}
use hqts.Packet.{PacketDescriptor}
use hqts.Aqm.Interface.{AqmQueue, AqmFactory}

pub record StrictPriorityScheduler (Q : Type 0) : Type 0 where
  pub priority_queues : List Q
  pub num_levels : ℕ
  pub total_packets : ℕ

abbrev pub is_empty : {Q : Type 0} → StrictPriorityScheduler Q → Bool
is_empty s = s.total_packets == 0

module _ {P Q : Type 0} ⦃a : AqmQueue Q⦄ ⦃f : AqmFactory P Q⦄ where
  -- One queue for each entry; `clock i` is the reading of the system clock that seeds queue `i`.
  pub make_queues : List P → (ℕ → ℕ) → ℕ → List Q
  make_queues [] clock i = []
  make_queues (params ∷ rest) clock i = f.make params (clock i) ∷ make_queues rest clock (suc i)

  -- The constructor.
  pub strict_priority_scheduler : List P → (ℕ → ℕ) → Result (StrictPriorityScheduler Q)
  strict_priority_scheduler queue_params_list clock =
      if length queue_params_list == 0
      then err invalid_argument
      else ok (record {
        priority_queues = make_queues queue_params_list clock 0;
        num_levels = length queue_params_list;
        total_packets = 0;
      })

module _ {Q : Type 0} ⦃a : AqmQueue Q⦄ where
  -- `priority_queues_[i].enqueue(packet)`, and the count if the queue stored it.
  pub enqueue_in :
      StrictPriorityScheduler Q
      → ℕ
      → PacketDescriptor
      → Option Q
      → StrictPriorityScheduler Q × Result (Unit {0})
  enqueue_in s i p none = (s, err undefined)
  enqueue_in s i p (some q) =
      let (q', stored) = a.enqueue q p in
      (
        record s {
          priority_queues = set s.priority_queues i q';
          total_packets = if stored then s.total_packets + 1 else s.total_packets;
        },
        ok tt,
      )

  pub enqueue :
      StrictPriorityScheduler Q → PacketDescriptor → StrictPriorityScheduler Q × Result (Unit {0})
  enqueue s p =
      if leb s.num_levels p.priority
      then (s, err out_of_range)
      else enqueue_in s p.priority p (get_elem? s.priority_queues p.priority)

  -- The packet of queue `i`, whose state is `q`.
  pub serve :
      StrictPriorityScheduler Q → ℕ → Q → StrictPriorityScheduler Q × Result PacketDescriptor
  serve s i q =
      let (q', r) = a.dequeue q in
      let t = record s { priority_queues = set s.priority_queues i q' } in
      elim r [
        | ok p ↦ (record t { total_packets = s.total_packets - 1 }, ok p)
        | err e ↦ (t, err e)
      ]

  -- The loop, with `n` levels left to look at: the next is `n - 1`.
  pub scan : StrictPriorityScheduler Q → ℕ → StrictPriorityScheduler Q × Result PacketDescriptor
  scan s zero = (s, err logic_error)
  scan s (suc n) = elim (get_elem? s.priority_queues n) [
    | none ↦ (s, err undefined)
    | some q ↦ if a.is_empty q then scan s n else serve s n q
  ]

  pub dequeue : StrictPriorityScheduler Q → StrictPriorityScheduler Q × Result PacketDescriptor
  dequeue s = if is_empty s then (s, err runtime_error) else scan s s.num_levels

  pub get_queue_size : StrictPriorityScheduler Q → ℕ → Result ℕ
  get_queue_size s priority_level =
      if leb s.num_levels priority_level
      then err out_of_range
      else elim (get_elem? s.priority_queues priority_level) [
        | none ↦ err undefined
        | some q ↦ ok (a.get_current_packet_count q)
      ]

pub get_num_priority_levels : {Q : Type 0} → StrictPriorityScheduler Q → ℕ
get_num_priority_levels s = s.num_levels
