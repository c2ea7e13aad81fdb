-- ===== src/Tests/Deficits.antt =====
-- The deficit round robin scheduler.
use hqts.Base.{
  ℕ, ◌+◌, ◌*◌, ◌<◌, ◌≡◌, refl, true, some, List, [], ◌∷◌, length, get_elem?, lookup, err,
  logic_error, arith,
}
use hqts.Packet.{PacketDescriptor}
use hqts.Aqm.Numerics.{fixed_point, counting}
use hqts.Aqm.Queue.{red_queue, red_factory}
use hqts.Scheduler.Interface.{TakesOrFails}
use hqts.Tests.{Queue, packet_to, stored}
use hqts.Scheduler.Drr.{DrrScheduler, InternalQueueState, dequeue}
use hqts.Scheduler.Drr.Invariant.{IsQuantized, packets, contents_of}
use hqts.Scheduler.Drr.Order.{dequeue-IsQuantized}
use hqts.Scheduler.Drr.Oversized.{dequeue_gives_up}

-- Queue 20, of quantum 400.
abbrev second : InternalQueueState Queue
second = record {
  packet_queue = stored (packet_to 20 500 ∷ packet_to 20 200 ∷ []);
  quantum_bytes = 400;
  deficit_counter = 100;
  external_id = 20;
}

abbrev two_quanta : DrrScheduler Queue
two_quanta = record {
  queues =
      record {
        packet_queue = stored (packet_to 10 900 ∷ []);
        quantum_bytes = 100;
        deficit_counter = 0;
        external_id = 10;
      }
      ∷ second
      ∷ [];
  queue_id_to_index = (10, 0) ∷ (20, 1) ∷ [];
  current_queue_index = 0;
  total_packets = 3;
  is_configured = true;
}

two_quanta_mapped :
    (k i : ℕ) → lookup k two_quanta.queue_id_to_index ≡ some i → i < length two_quanta.queues
unfolding lookup
two_quanta_mapped k i e = grind (arith, e)

two_quanta-IsQuantized : IsQuantized two_quanta
unfolding red_queue
two_quanta-IsQuantized = record {
  configured = refl;
  index = omega arith;
  total = refl;
  mapped = two_quanta_mapped;
}

-- One packet of 900 bytes, where two quanta come to 200.
abbrev pub starved : DrrScheduler Queue
starved = record {
  queues =
      record {
        packet_queue = stored (packet_to 10 900 ∷ []);
        quantum_bytes = 100;
        deficit_counter = 0;
        external_id = 10;
      }
      ∷ [];
  queue_id_to_index = (10, 0) ∷ [];
  current_queue_index = 0;
  total_packets = 1;
  is_configured = true;
}

starved_mapped : (k i : ℕ) → lookup k starved.queue_id_to_index ≡ some i → i < length starved.queues
unfolding lookup
starved_mapped k i e = grind (arith, e)

pub starved-IsQuantized : IsQuantized starved
unfolding red_queue
starved-IsQuantized = record {
  configured = refl;
  index = omega arith;
  total = refl;
  mapped = starved_mapped;
}

starved_long :
    (k : ℕ) (q : InternalQueueState Queue) (p : PacketDescriptor) (ps : List PacketDescriptor)
    → get_elem? starved.queues k ≡ some q
    → contents_of q ≡ p ∷ ps
    → q.deficit_counter + q.quantum_bytes * 2 < p.packet_length_bytes
unfolding red_queue
starved_long k q p ps e f = grind (arith, e, f)

dequeue-IsQuantized_example :
    IsQuantized (dequeue two_quanta).0
    × TakesOrFails (packets two_quanta) (dequeue two_quanta).1 (packets (dequeue two_quanta).0)
dequeue-IsQuantized_example = dequeue-IsQuantized two_quanta two_quanta-IsQuantized

dequeue_gives_up_example : (dequeue starved).1 ≡ err logic_error
dequeue_gives_up_example =
    dequeue_gives_up starved starved-IsQuantized (λ e. ground (arith, e)) starved_long
