-- ===== src/Packet.antt =====
-- hqts/include/hqts/scheduler/packet_descriptor.h. A byte of the payload is a number.
use hqts.Base.{ℕ, zero, suc, List, [], ◌∷◌}

pub data ConformanceLevel : Type 0 where
  green yellow red : ConformanceLevel

pub record PacketDescriptor : Type 0 where
  pub flow_id : ℕ
  pub packet_length_bytes : ℕ
  pub priority : ℕ
  pub conformance : ConformanceLevel
  pub payload : List ℕ

-- payload.resize(n), from an empty vector.
zeros : ℕ → List ℕ
zeros zero = []
zeros (suc n) = 0 ∷ zeros n

-- The constructor; its last argument defaults to `green` in the source.
unfoldable pub packet_descriptor : ℕ → ℕ → ℕ → ℕ → ConformanceLevel → PacketDescriptor
unfolding zeros
packet_descriptor f_id len prio_val payload_size conf = record {
  flow_id = f_id;
  packet_length_bytes = len;
  priority = prio_val;
  conformance = conf;
  payload = zeros payload_size;
}

-- The default constructor.
abbrev pub empty_packet : PacketDescriptor
empty_packet = record {
  flow_id = 0;
  packet_length_bytes = 0;
  priority = 0;
  conformance = green;
  payload = [];
}
