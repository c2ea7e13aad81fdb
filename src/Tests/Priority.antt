-- ===== src/Tests/Priority.antt =====
-- The strict priority scheduler.
use hqts.Base.{ℕ, ◌-◌, ◌≡◌, refl, List, [], ◌∷◌, set, ok}
use hqts.Packet.{PacketDescriptor}
use hqts.Aqm.Numerics.{fixed_point, counting}
use hqts.Aqm.Queue.{red_queue, red_factory}
use hqts.Tests.{Queue, packet_to, stored}
use hqts.Scheduler.StrictPriority.{StrictPriorityScheduler, dequeue}
use hqts.Scheduler.StrictPriority.Invariant.{IsLevelled}
use hqts.Scheduler.StrictPriority.Scan.{IsHighest}
use hqts.Scheduler.StrictPriority.Order.{dequeue-IsHighest, strict_priority}

-- Two levels, with one packet of the lower and two of the higher.
abbrev pub two_levels : StrictPriorityScheduler Queue
two_levels = record {
  priority_queues =
      stored (packet_to 0 300 ∷ []) ∷ stored (packet_to 1 500 ∷ packet_to 1 200 ∷ []) ∷ [];
  num_levels = 2;
  total_packets = 3;
}

pub two_levels-IsLevelled : IsLevelled two_levels
unfolding red_queue
two_levels-IsLevelled = record { levels = refl; total = refl }

dequeue-IsHighest_example :
    (i : ℕ) × (q : Queue) × (p : PacketDescriptor) × (ps : List PacketDescriptor) × IsHighest
      two_levels two_levels.num_levels i q p ps
    × (red_queue.contents (red_queue.dequeue q).0 ≡ ps)
    × (dequeue two_levels ≡ (
      record two_levels {
        priority_queues = set two_levels.priority_queues i (red_queue.dequeue q).0;
        total_packets = two_levels.total_packets - 1;
      },
      ok p,
    ))
dequeue-IsHighest_example = dequeue-IsHighest two_levels two_levels-IsLevelled refl
