-- ===== src/Tests/Queues.antt =====
-- RED queues.
use hqts.Base.{◌*◌, ◌<◌, ◌≡◌, refl, true, false, [], ◌∷◌, arith}
use hqts.Aqm.Numerics.{fixed_point, counting, fixed_point-IsIeee, counting-IsUniform, billion}
use hqts.Aqm.{enqueue, update_average_queue_size, calculate_drop_probability}
use hqts.Aqm.Bytes.{IsCounted, total_bytes, enqueue-IsCounted, enqueue_overflow}
use hqts.Aqm.Drops.{enqueue_forced_drop}
use hqts.Tests.{Queue, packet_to, stored}

abbrev two_packets : Queue
two_packets = stored (packet_to 0 300 ∷ packet_to 1 500 ∷ [])

two_packets-IsCounted : IsCounted two_packets
two_packets-IsCounted = record { counted = refl; fits = omega arith; capacity_lt = omega arith }

-- The average, of 2000 bytes, lies between the thresholds, and thirty packets have come.
abbrev busy : Queue
busy = record two_packets {
  average_queue_size_bytes = 2000 * billion;
  packets_since_last_drop = 30;
}

enqueue-IsCounted_example : IsCounted (enqueue two_packets (packet_to 0 900)).0
enqueue-IsCounted_example =
    enqueue-IsCounted two_packets (packet_to 0 900) two_packets-IsCounted (omega arith)

enqueue_overflow_example :
    ((enqueue two_packets (packet_to 0 4_294_967_096)).1 ≡ true)
    × (two_packets.params.queue_capacity_bytes
        < total_bytes (enqueue two_packets (packet_to 0 4_294_967_096)).0.packet_buffer)
unfolding update_average_queue_size
enqueue_overflow_example =
    enqueue_overflow fixed_point-IsIeee two_packets (packet_to 0 4_294_967_096)
      two_packets-IsCounted (omega arith) (omega arith) refl

enqueue_forced_drop_example :
    ((enqueue busy (packet_to 0 900)).1 ≡ false)
    × ((enqueue busy (packet_to 0 900)).0.packets_since_last_drop ≡ 0)
    × ((enqueue busy (packet_to 0 900)).0.packet_buffer ≡ busy.packet_buffer)
unfolding update_average_queue_size calculate_drop_probability
enqueue_forced_drop_example =
    enqueue_forced_drop fixed_point-IsIeee counting-IsUniform busy (packet_to 0 900) (omega arith)
      refl refl
