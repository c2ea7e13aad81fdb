-- ===== src/Tests.antt =====
-- Concrete packets, queues and schedulers, and runs of the definitions on them.
pub mod Buckets
pub mod Queues
pub mod Priority
pub mod RoundRobin
pub mod Deficits
pub mod Curves
pub mod Clocks
pub mod Competition
pub mod RoundTrips
pub mod Flows
pub mod Shaping
pub mod Pipelines
use hqts.Base.{ℕ, ◌+◌, List, []}
use hqts.Packet.{PacketDescriptor, green}
use hqts.Aqm.{RedAqmParameters, RedAqmQueue}
use hqts.Aqm.Bytes.{total_bytes}

abbrev pub Queue : Type 0
Queue = RedAqmQueue ℕ ℕ

-- Probabilities and weights are in billionths.
abbrev pub red_params : RedAqmParameters ℕ
red_params = record {
  min_threshold_bytes = 1000;
  max_threshold_bytes = 3000;
  max_probability = 100_000_000;
  ewma_weight = 2_000_000;
  queue_capacity_bytes = 10_000;
}

abbrev pub packet_to : ℕ → ℕ → PacketDescriptor
packet_to level len = record {
  flow_id = 7;
  packet_length_bytes = len;
  priority = level;
  conformance = green;
  payload = [];
}

abbrev pub stored : List PacketDescriptor → Queue
stored ps = record {
  packet_buffer = ps;
  params = red_params;
  average_queue_size_bytes = 0;
  current_total_bytes = total_bytes ps;
  packets_since_last_drop = 0;
  random_generator = 0;
}
