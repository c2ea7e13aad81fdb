-- ===== src/Tests/RoundTrips.antt =====
-- A packet through the pipeline and out of it again.
use hqts.Base.{zero, suc, ◌≡◌, refl, true, false, ◌⊎◌, List, [], ◌∷◌, ok, arith}
use hqts.Packet.{packet_descriptor, empty_packet}
use hqts.Policy.{ShapingPolicy}
use hqts.Policy.Listed.{listed, listed-IsIndexed}
use hqts.TokenBucket.{consume, refill}
use hqts.Aqm.Numerics.{fixed_point, counting}
use hqts.Aqm.Queue.{red_queue}
use hqts.Scheduler.StrictPriority.{StrictPriorityScheduler}
use hqts.Scheduler.StrictPriority.Invariant.{IsLevelled, packets}
use hqts.Scheduler.StrictPriority.Order.{strict_priority, stores}
use hqts.Scheduler.StrictPriority.Preempt.{NoneAbove}
use hqts.Shaper.{apply_token_buckets}
use hqts.Pipeline.{PacketPipeline, incoming, handle_incoming_packet, get_next_packet_to_transmit}
use hqts.Pipeline.RoundTrip.{shaped, get_next-handle_incoming}
use hqts.Tests.{Queue, packet_to, stored}
use hqts.Scheduler.StrictPriority.Drain.{by_level}
use hqts.Pipeline.Drain.{transmits, transmits-by_level}
use hqts.Tests.Priority.{two_levels, two_levels-IsLevelled}
use hqts.Tests.Flows.{web}
use hqts.Tests.Shaping.{gold, readings, shaper, gold_in_force}

-- Two levels, with a packet of the lower.
abbrev low : StrictPriorityScheduler Queue
low = record {
  priority_queues = stored (packet_to 0 300 ∷ []) ∷ stored [] ∷ [];
  num_levels = 2;
  total_packets = 1;
}

low-IsLevelled : IsLevelled low
unfolding red_queue
low-IsLevelled = record { levels = refl; total = refl }

low_above : NoneAbove low 1
unfolding red_queue
low_above zero v l e = absurd (omega arith)
low_above (suc zero) v l e = ground (arith, e)
low_above (suc (suc j)) v l e = cc

abbrev pipeline : PacketPipeline (List ShapingPolicy) (StrictPriorityScheduler Queue)
pipeline = record { shaper = shaper; scheduler = low }

abbrev full : PacketPipeline (List ShapingPolicy) (StrictPriorityScheduler Queue)
full = record { shaper = shaper; scheduler = two_levels }

-- A packet of 600 bytes is green.
shaped_level : (shaped pipeline web 600 (1 ∷ 2 ∷ []) readings gold).priority ≡ 1
unfolding apply_token_buckets consume refill incoming packet_descriptor
shaped_level = refl

get_next-handle_incoming_example :
    let t = (handle_incoming_packet pipeline web 600 (1 ∷ 2 ∷ []) readings).0 in
    ((stores low (shaped pipeline web 600 (1 ∷ 2 ∷ []) readings gold) ≡ false)
      × (packets t.scheduler ≡ packets low))
    ⊎ ((stores low (shaped pipeline web 600 (1 ∷ 2 ∷ []) readings gold) ≡ true)
        × ((get_next_packet_to_transmit t).1
            ≡ ok (shaped pipeline web 600 (1 ∷ 2 ∷ []) readings gold))
        × (packets (get_next_packet_to_transmit t).0.scheduler ≡ packets low))
unfolding apply_token_buckets consume refill incoming packet_descriptor
get_next-handle_incoming_example =
    get_next-handle_incoming listed-IsIndexed pipeline web 600 (1 ∷ 2 ∷ []) readings gold
      gold_in_force refl low-IsLevelled low_above

transmits-by_level_example :
    (t : PacketPipeline (List ShapingPolicy) (StrictPriorityScheduler Queue)) × (transmits 3 full
      ≡ (t, ok (by_level two_levels)))
    × (t.shaper ≡ shaper)
    × (get_next_packet_to_transmit t ≡ (t, ok empty_packet))
transmits-by_level_example = transmits-by_level full two_levels-IsLevelled
