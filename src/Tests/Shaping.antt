-- ===== src/Tests/Shaping.antt =====
-- The traffic shaper.
use hqts.Base.{
  ◌+◌, ◌-◌, ◌*◌, ◌<◌, ◌≤◌, ◌≡◌, refl, ◌↔◌, Bool, true, not, ◌&&◌, some, none, List, [], ◌∷◌, leb,
  lookup, if◌then◌else◌, ok, arith,
}
use hqts.Packet.{green, yellow, red}
use hqts.TokenBucket.{consume, refill}
use hqts.TokenBucket.Bounds.{IsWithin}
use hqts.Policy.{ShapingPolicy, hfsc}
use hqts.Policy.Listed.{listed, listed-IsIndexed}
use hqts.Flow.Context.{flow_context}
use hqts.Flow.Table.{emplace, find}
use hqts.Flow.Classifier.{get_or_create_flow, create_flow}
use hqts.Flow.Classifier.Laws.{IsClassified}
use hqts.Tests.Flows.{web, new, new-IsClassified}
use hqts.Shaper.{
  TrafficShaper, Readings, apply_token_buckets, is_red, target_priority, process_packet,
}
use hqts.Shaper.Colours.{held, cir_charge, apply_token_buckets_colour, apply_token_buckets_charge}
use hqts.Shaper.Policing.{Packets, coloured, coloured_rate}
use hqts.Shaper.Process.{policy_in_force, process_packet_shapes, process_packet_total}
use hqts.Tests.{packet_to}

-- Policy 1, which drops on red, has 1000 and 500 bytes of burst.
abbrev pub gold : ShapingPolicy
gold = record {
  id = 1;
  parent_id = 0;
  children_ids = [];
  name = [];
  committed_rate_bps = 8_000_000;
  peak_rate_bps = 16_000_000;
  committed_burst_bytes = 1000;
  excess_burst_bytes = 500;
  algorithm = hfsc;
  weight = 1;
  priority_level = 0;
  drop_on_red = true;
  target_priority_green = 1;
  target_priority_yellow = 0;
  target_priority_red = 0;
  target_queue_id_green = 1;
  target_queue_id_yellow = 0;
  target_queue_id_red = 0;
  cir_bucket = record {
    capacity_bytes = 1000;
    tokens_bytes = 1000;
    rate_bps = 8_000_000;
    last_refill_time = 0;
  };
  pir_bucket = record {
    capacity_bytes = 500;
    tokens_bytes = 500;
    rate_bps = 16_000_000;
    last_refill_time = 0;
  };
  stats = record {
    bytes_processed = 0;
    packets_processed = 0;
    bytes_dropped = 0;
    packets_dropped = 0;
  };
  last_updated = 0;
}

abbrev pub readings : Readings
readings = record { context = 10_000; cir = 20_000; pir = 30_000 }

abbrev pub shaper : TrafficShaper (List ShapingPolicy)
shaper = record {
  policy_tree = gold ∷ record gold { id = 2 } ∷ [];
  flow_classifier = new;
  flow_table = [];
}

-- The default policy of the classifier is missing.
abbrev bare : TrafficShaper (List ShapingPolicy)
bare = record shaper { policy_tree = [] }

pub gold_in_force : policy_in_force shaper web readings ≡ some gold
unfolding get_or_create_flow flow_context emplace lookup find create_flow
gold_in_force = refl

none_in_force : policy_in_force bare web readings ≡ none
unfolding get_or_create_flow flow_context emplace lookup find create_flow
none_in_force = refl

apply_token_buckets_colour_example :
    let n = (packet_to 0 600).packet_length_bytes in
    let level = (apply_token_buckets (packet_to 0 600) gold readings).1 in
    ((level ≡ green) ↔ (n ≤ held gold.cir_bucket readings.cir))
    × ((level ≡ yellow)
        ↔ ((held gold.cir_bucket readings.cir < n) × (n ≤ held gold.pir_bucket readings.pir)))
    × ((level ≡ red)
        ↔ ((held gold.cir_bucket readings.cir < n) × (held gold.pir_bucket readings.pir < n)))
apply_token_buckets_colour_example = apply_token_buckets_colour (packet_to 0 600) gold readings

apply_token_buckets_charge_example :
    let n = (packet_to 0 600).packet_length_bytes in
    let (policy', level) = apply_token_buckets (packet_to 0 600) gold readings in
    let pir = held gold.pir_bucket readings.pir in
    (policy'.cir_bucket.tokens_bytes + cir_charge level n ≡ held gold.cir_bucket readings.cir)
    × (policy'.pir_bucket.tokens_bytes + (if leb n pir then n else 0) ≡ pir)
    × IsWithin policy'.cir_bucket
    × IsWithin policy'.pir_bucket
    × (record policy' { cir_bucket = gold.cir_bucket; pir_bucket = gold.pir_bucket } ≡ gold)
apply_token_buckets_charge_example =
    apply_token_buckets_charge (packet_to 0 600) gold readings (omega arith) (omega arith)

process_packet_shapes_example :
    let (policy', level) = apply_token_buckets (packet_to 0 600) gold readings in
    let (s', p, r) = process_packet shaper (packet_to 0 600) web readings in
    let (_, _, i) =
      get_or_create_flow shaper.flow_classifier shaper.flow_table web readings.context in
    let drop_this_packet = is_red level && gold.drop_on_red in
    (r ≡ ok (not drop_this_packet))
    × (p ≡ record (packet_to 0 600) {
      flow_id = i;
      conformance = level;
      priority =
          if drop_this_packet then (packet_to 0 600).priority else target_priority gold level;
    })
    × (listed.find gold.id s'.policy_tree ≡ some policy')
process_packet_shapes_example =
    process_packet_shapes listed-IsIndexed shaper (packet_to 0 600) web readings gold gold_in_force

process_packet_total_example :
    let (s', _, r) = process_packet shaper (packet_to 0 600) web readings in
    ((answer : Bool) × (r ≡ ok answer)) × IsClassified s'.flow_classifier s'.flow_table
process_packet_total_example =
    process_packet_total listed-IsIndexed shaper (packet_to 0 600) web readings new-IsClassified
      (omega arith)

-- Two packets, 20 and 60 microseconds after the start.
abbrev two_packets : Packets
two_packets =
    (packet_to 0 600, readings)
    ∷ (packet_to 0 450, record { context = 50_000; cir = 60_000; pir = 70_000 })
    ∷ []

coloured_green_run : coloured green gold two_packets ≡ 600
unfolding coloured apply_token_buckets consume refill
coloured_green_run = refl

coloured_rate_example :
    (8_000_000_000 * coloured green gold two_packets
      ≤ 8_000_000_000 * 1000 + (90_000 - 0) * 8_000_000)
    × (8_000_000_000 * coloured yellow gold two_packets
        ≤ 8_000_000_000 * 500 + (90_000 - 0) * 16_000_000)
coloured_rate_example =
    coloured_rate gold two_packets 90_000 (omega arith, (omega arith, omega arith))
      (omega arith, (omega arith, omega arith))
