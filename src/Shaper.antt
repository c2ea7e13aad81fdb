-- ===== src/Shaper.antt =====
-- hqts/include/hqts/core/traffic_shaper.h and hqts/src/core/traffic_shaper.cpp. The objects that the
-- shaper refers to are the fields of its state.
pub mod Colours
pub mod Process
pub mod Policing
use hqts.Base.{
  ℕ, Bool, true, false, not, ◌&&◌, Option, none, some, if◌then◌else◌, Result, ok, err,
  runtime_error, lookup,
}
use hqts.Packet.{PacketDescriptor, ConformanceLevel, green, yellow, red}
use hqts.TokenBucket.{consume}
use hqts.Policy.{ShapingPolicy}
use hqts.Policy.Tree.{PolicyTree}
use hqts.Flow.Context.{FlowContext}
use hqts.Flow.Identifier.{FiveTuple}
use hqts.Flow.Table.{FlowTable}
use hqts.Flow.Classifier.{FlowClassifier, get_or_create_flow}

pub record TrafficShaper (T : Type 0) : Type 0 where
  pub policy_tree : T
  pub flow_classifier : FlowClassifier
  pub flow_table : FlowTable

-- The constructor, which keeps references to its arguments.
pub traffic_shaper : {T : Type 0} → T → FlowClassifier → FlowTable → TrafficShaper T
traffic_shaper pt fc ft = record { policy_tree = pt; flow_classifier = fc; flow_table = ft }

-- The readings of the clock in one call, in order: for a new flow's context, and for each bucket.
pub record Readings : Type 0 where
  pub context : ℕ
  pub cir : ℕ
  pub pir : ℕ

-- The buckets of the policy are charged; every branch asks both, except that the answer of the
-- second is not used for a green packet.
unfoldable pub apply_token_buckets :
    PacketDescriptor → ShapingPolicy → Readings → ShapingPolicy × ConformanceLevel
apply_token_buckets packet policy at =
    let (cir, conforms_to_cir) = consume policy.cir_bucket packet.packet_length_bytes at.cir in
    let (pir, conforms_to_pir) = consume policy.pir_bucket packet.packet_length_bytes at.pir in
    (
      record policy { cir_bucket = cir; pir_bucket = pir },
      if conforms_to_cir then green else if conforms_to_pir then yellow else red,
    )

abbrev pub is_red : ConformanceLevel → Bool
is_red red = true
is_red _ = false

abbrev pub target_priority : ShapingPolicy → ConformanceLevel → ℕ
target_priority policy green = policy.target_priority_green
target_priority policy yellow = policy.target_priority_yellow
target_priority policy red = policy.target_priority_red

-- What the lambda given to `modify` does to the packet, and whether the packet is dropped.
pub mark : PacketDescriptor → ShapingPolicy → ConformanceLevel → PacketDescriptor × Bool
mark packet policy level =
    if is_red level && policy.drop_on_red
    then (record packet { conformance = level }, true)
    else (record packet { conformance = level; priority = target_priority policy level }, false)

module _ {T : Type 0} ⦃tree : PolicyTree T⦄ where
  -- The part of `process_packet` with the policy in hand.
  pub shape :
      TrafficShaper T
      → PacketDescriptor
      → ℕ
      → ShapingPolicy
      → Readings
      → TrafficShaper T × PacketDescriptor × Result Bool
  unfolding mark
  shape s packet policy_id policy at =
      let (t, modified) =
        tree.modify policy_id (λ p. (apply_token_buckets packet p at).0) s.policy_tree in
      let (marked, drop_this_packet) =
        mark packet policy (apply_token_buckets packet policy at).1 in
      (
        record s { policy_tree = t },
        marked,
        if modified then ok (not drop_this_packet) else err runtime_error,
      )

  pub apply_policy :
      TrafficShaper T
      → PacketDescriptor
      → ℕ
      → Readings
      → TrafficShaper T × PacketDescriptor × Result Bool
  unfolding shape
  apply_policy s packet policy_id at = elim (tree.find policy_id s.policy_tree) [
    | none ↦ (s, record packet { conformance = red }, ok false)
    | some policy ↦ shape s packet policy_id policy at
  ]

  -- The shaper, the packet as it leaves it, and the result: whether to enqueue the packet.
  pub process_packet :
      TrafficShaper T
      → PacketDescriptor
      → FiveTuple
      → Readings
      → TrafficShaper T × PacketDescriptor × Result Bool
  unfolding apply_policy
  process_packet s packet five_tuple at =
      let (c, t, flow_id) =
        get_or_create_flow s.flow_classifier s.flow_table five_tuple at.context in
      let s' = record s { flow_classifier = c; flow_table = t } in
      let p = record packet { flow_id = flow_id } in
      elim (lookup flow_id t) [
        | none ↦ (s', p, err runtime_error)
        | some flow_context ↦ apply_policy s' p flow_context.policy_id at
      ]
