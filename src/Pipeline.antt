-- ===== src/Pipeline.antt =====
-- hqts/include/hqts/core/packet_pipeline.h and hqts/src/core/packet_pipeline.cpp. The shaper and the
-- scheduler that the pipeline refers to are the fields of its state. Its reference to the classifier
-- is never used: the calls reach the classifier through the shaper.
pub mod Delivery
pub mod Conservation
pub mod RoundTrip
pub mod Drain
use hqts.Base.{ℕ, Bool, true, false, not, List, null, length, if◌then◌else◌, Result, ok, err}
use hqts.Packet.{PacketDescriptor, packet_descriptor, empty_packet, green}
use hqts.Policy.Tree.{PolicyTree}
use hqts.Flow.Identifier.{FiveTuple}
use hqts.Flow.Classifier.{FlowClassifier}
use hqts.Shaper.{TrafficShaper, Readings, process_packet}
use hqts.Scheduler.Interface.{Scheduler}

pub record PacketPipeline (T S : Type 0) : Type 0 where
  pub shaper : TrafficShaper T
  pub scheduler : S

-- The constructor. Its classifier is the one that the shaper has.
pub packet_pipeline : {T S : Type 0} → FlowClassifier → TrafficShaper T → S → PacketPipeline T S
packet_pipeline classifier shaper scheduler = record { shaper = shaper; scheduler = scheduler }

-- The descriptor that a new packet starts with.
unfoldable pub incoming : ℕ → List ℕ → PacketDescriptor
incoming packet_length_bytes payload =
    let packet = packet_descriptor 0 packet_length_bytes 0 (length payload) green in
    if not (null payload) then record packet { payload = payload } else packet

module _ {T S : Type 0} ⦃tree : PolicyTree T⦄ ⦃scheduling : Scheduler S⦄ where
  -- The part after the shaper, by its answer.
  pub deliver :
      PacketPipeline T S → PacketDescriptor → Result Bool → PacketPipeline T S × Result (Unit {0})
  deliver s packet (ok true) =
      let (q, r) = scheduling.enqueue s.scheduler packet in (record s { scheduler = q }, r)
  deliver s packet (ok false) = (s, ok tt)
  deliver s packet (err e) = (s, err e)

  pub handle_incoming_packet :
      PacketPipeline T S
      → FiveTuple
      → ℕ
      → List ℕ
      → Readings
      → PacketPipeline T S × Result (Unit {0})
  unfolding deliver
  handle_incoming_packet s five_tuple packet_length_bytes payload at =
      let (shaper, packet, should_enqueue) =
        process_packet s.shaper (incoming packet_length_bytes payload) five_tuple at in
      deliver (record s { shaper = shaper }) packet should_enqueue

  -- By the answer of `is_empty`.
  transmit : PacketPipeline T S → Result Bool → PacketPipeline T S × Result PacketDescriptor
  transmit s (ok false) =
      let (q, r) = scheduling.dequeue s.scheduler in (record s { scheduler = q }, r)
  transmit s (ok true) = (s, ok empty_packet)
  transmit s (err e) = (s, err e)

  pub get_next_packet_to_transmit :
      PacketPipeline T S → PacketPipeline T S × Result PacketDescriptor
  unfolding transmit
  get_next_packet_to_transmit s = transmit s (scheduling.is_empty s.scheduler)
