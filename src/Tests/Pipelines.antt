-- ===== src/Tests/Pipelines.antt =====
-- The pipeline, over the strict priority scheduler.
use hqts.Base.{◌≡◌, ◌&&◌, List, [], ◌∷◌, ◌++◌, if◌then◌else◌, ok}
use hqts.Packet.{PacketDescriptor}
use hqts.Policy.{ShapingPolicy}
use hqts.Policy.Listed.{listed, listed-IsIndexed}
use hqts.Flow.Classifier.{get_or_create_flow}
use hqts.Tests.Flows.{web}
use hqts.Aqm.Numerics.{fixed_point, counting}
use hqts.Aqm.Queue.{red_queue}
use hqts.Scheduler.Interface.{Scheduler, IsScheduler}
use hqts.Scheduler.StrictPriority.{StrictPriorityScheduler}
use hqts.Scheduler.StrictPriority.Order.{strict_priority, strict_priority-IsScheduler}
use hqts.Shaper.{apply_token_buckets, is_red, target_priority, process_packet}
use hqts.Pipeline.{PacketPipeline, incoming, handle_incoming_packet}
use hqts.Pipeline.Delivery.{handle_incoming_packet_delivers}
use hqts.Pipeline.Conservation.{
  Call, arrival, departure, held, run, all_accepted, all_sent, run_conserves,
}
use hqts.Tests.{Queue}
use hqts.Tests.Shaping.{gold, readings, shaper, gold_in_force}
use hqts.Tests.Priority.{two_levels, two_levels-IsLevelled}
use mathlib.Core.List.{Perm}

abbrev pipeline : PacketPipeline (List ShapingPolicy) (StrictPriorityScheduler Queue)
pipeline = record { shaper = shaper; scheduler = two_levels }

abbrev scheduling : Scheduler (StrictPriorityScheduler Queue)
scheduling = strict_priority

abbrev laws : IsScheduler (StrictPriorityScheduler Queue)
laws = strict_priority-IsScheduler

two_levels_Inv : laws.Inv two_levels
unfolding strict_priority-IsScheduler
two_levels_Inv = two_levels-IsLevelled

abbrev calls : List Call
calls = arrival web 600 (1 ∷ 2 ∷ []) readings ∷ departure ∷ departure ∷ []

handle_incoming_packet_delivers_example :
    let c = pipeline.shaper.flow_classifier in
    let shaper' = (process_packet pipeline.shaper (incoming 600 (1 ∷ 2 ∷ [])) web readings).0 in
    let level = (apply_token_buckets (incoming 600 (1 ∷ 2 ∷ [])) gold readings).1 in
    let packet : PacketDescriptor = record {
      flow_id = (get_or_create_flow c pipeline.shaper.flow_table web readings.context).2;
      packet_length_bytes = 600;
      priority = target_priority gold level;
      conformance = level;
      payload = (1 ∷ 2 ∷ []);
    } in
    let (q, r) = scheduling.enqueue pipeline.scheduler packet in
    handle_incoming_packet pipeline web 600 (1 ∷ 2 ∷ []) readings ≡ (
      if is_red level && gold.drop_on_red
      then (record pipeline { shaper = shaper' }, ok tt)
      else (record { shaper = shaper'; scheduler = q }, r))
handle_incoming_packet_delivers_example =
    handle_incoming_packet_delivers listed-IsIndexed pipeline web 600 (1 ∷ 2 ∷ []) readings gold
      gold_in_force

run_conserves_example :
    Perm
      (held laws pipeline ++ all_accepted laws pipeline calls)
      (all_sent laws pipeline calls ++ held laws (run laws pipeline calls))
run_conserves_example = run_conserves strict_priority-IsScheduler pipeline calls two_levels_Inv
