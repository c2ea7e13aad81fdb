-- ===== src/Tests/Curves.antt =====
-- The hierarchical fair service curve scheduler.
use hqts.Base.{
  insert, ℕ, ◌+◌, ◌-◌, ◌≡◌, refl, ◌⊎◌, inl, inr, ap, Option, true, false, some, List, [], ◌∷◌, ok,
  err, logic_error, lookup, arith,
}
use hqts.Packet.{PacketDescriptor}
use hqts.Scheduler.Hfsc.Timing.{ServiceCurve, HfscFlowState}
use hqts.Scheduler.Hfsc.{HfscScheduler, greater, enqueue, dequeue, is_empty, update_flow_schedule}
use hqts.Scheduler.Hfsc.Configure.{
  FlowConfig, hfsc_flow_state, add_child, add_flow, add_flows, set_children, hfsc_scheduler,
}
use hqts.Scheduler.Interface.{AddsIf, TakesOrFails}
use hqts.Scheduler.Hfsc.Bag.{packets}
use hqts.Scheduler.Hfsc.Contract.{
  hfsc, Files, stores, IsAccounted, enqueue-IsAccounted, dequeue-IsAccounted,
}
use hqts.Scheduler.Hfsc.Reschedule.{dequeue_update}
use hqts.Scheduler.Hfsc.Live.Listed.{IsListed}
use hqts.Scheduler.Hfsc.Configured.{hfsc_scheduler-IsAccounted}
use hqts.Scheduler.Hfsc.Eligible.{IsScheduled}
use hqts.Scheduler.Lanes.{run}
use hqts.Scheduler.Hfsc.Least.{ServesFirst, run_least}
use hqts.Scheduler.Hfsc.Stuck.{dequeue_stuck}
use hqts.Tests.{packet_to}

abbrev pub curve : ℕ → ServiceCurve
curve rate = record { rate_bps = rate; delay_us = 0 }

-- A flow of that id, real-time rate and packets.
abbrev pub flow : ℕ → ℕ → ℕ → List PacketDescriptor → HfscFlowState
flow id rate finish ps = record {
  flow_id = id;
  packet_queue = ps;
  real_time_sc = curve rate;
  link_share_sc = curve 0;
  upper_limit_sc = curve 0;
  virtual_start_time = 0;
  virtual_finish_time = finish;
  eligible_time = 0;
  virtual_finish_time_ul = 0;
  parent_id = 0;
  children_ids = [];
}

abbrev pub slow : HfscFlowState
slow = flow 2 1_000_000 4000 (packet_to 2 500 ∷ [])

abbrev pub fast : HfscFlowState
fast = flow 1 8_000_000 300 (packet_to 1 300 ∷ packet_to 1 200 ∷ [])

-- Flows 1 and 2; the first finishes first.
abbrev pub two_flows : HfscScheduler
two_flows = record {
  flow_states = (1, fast) ∷ (2, slow) ∷ [];
  total_link_bandwidth_bps = 100_000_000;
  current_virtual_time = 0;
  total_packets = 3;
  is_configured = true;
  eligible_set =
      record { virtual_finish_time = 300; flow_id = 1 }
      ∷ record { virtual_finish_time = 4000; flow_id = 2 }
      ∷ [];
}

two_flows_named :
    (k : ℕ) (f : HfscFlowState) → lookup k two_flows.flow_states ≡ some f → f.flow_id ≡ k
unfolding lookup
two_flows_named k f e = grind (arith, e)

pub two_flows-IsScheduled : IsScheduled two_flows.flow_states two_flows.eligible_set
unfolding lookup greater
two_flows-IsScheduled = record {
  named = two_flows_named;
  waiting = ((_, _, _, refl, refl), ((_, _, _, refl, refl), tt));
  ordered = ((refl, tt), ((λ e. ground (arith, e)), tt), (tt, tt, tt));
}

-- A flow with no curve, and nothing else.
abbrev idle : HfscScheduler
idle = record two_flows {
  flow_states = (3, flow 3 0 0 []) ∷ [];
  total_packets = 0;
  eligible_set = [];
}

dequeue_stuck_example :
    let (s', r) = enqueue idle (packet_to 3 100) in
    (r ≡ ok tt)
    × (s'.total_packets ≡ idle.total_packets + 1)
    × (is_empty s' ≡ false)
    × (dequeue s' ≡ (s', err logic_error))
unfolding lookup
dequeue_stuck_example =
    dequeue_stuck idle (packet_to 3 100) (flow 3 0 0 []) refl refl refl
      (record { real_time = refl; link_share = refl })

-- Class 1 and its flow 2.
abbrev class_config : FlowConfig
class_config = record {
  id = 1;
  parent_id = 0;
  real_time_sc = curve 0;
  link_share_sc = curve 8_000_000;
  upper_limit_sc = curve 0;
}

abbrev flow_config : FlowConfig
flow_config = record {
  id = 2;
  parent_id = 1;
  real_time_sc = curve 1_000_000;
  link_share_sc = curve 0;
  upper_limit_sc = curve 0;
}

abbrev class_and_flow : HfscScheduler
class_and_flow = record {
  flow_states =
      (1, record (flow 1 0 0 []) { link_share_sc = curve 8_000_000; children_ids = 2 ∷ [] })
      ∷ (2, record (flow 2 1_000_000 0 []) { parent_id = 1 })
      ∷ [];
  total_link_bandwidth_bps = 100_000_000;
  current_virtual_time = 0;
  total_packets = 0;
  is_configured = true;
  eligible_set = [];
}

configs_make : hfsc_scheduler (class_config ∷ flow_config ∷ []) 100_000_000 ≡ ok class_and_flow
unfolding hfsc_scheduler add_flows add_flow hfsc_flow_state add_child set_children lookup insert
configs_make = refl

pub two_flows-IsAccounted : IsAccounted two_flows
two_flows-IsAccounted = record {
  configured = refl;
  scheduled = two_flows-IsScheduled;
  total = refl;
}

enqueue-IsAccounted_example :
    let p = packet_to 2 100 in
    IsAccounted (enqueue two_flows p).0
    × Files two_flows p (enqueue two_flows p)
    × AddsIf (stores two_flows p) (packets two_flows) p (packets (enqueue two_flows p).0)
enqueue-IsAccounted_example = enqueue-IsAccounted two_flows (packet_to 2 100) two_flows-IsAccounted

dequeue-IsAccounted_example :
    IsAccounted (dequeue two_flows).0
    × TakesOrFails (packets two_flows) (dequeue two_flows).1 (packets (dequeue two_flows).0)
dequeue-IsAccounted_example = dequeue-IsAccounted two_flows two_flows-IsAccounted

hfsc_scheduler-IsAccounted_example :
    IsAccounted class_and_flow
    × (class_and_flow.eligible_set ≡ [])
    × (packets class_and_flow ≡ [])
    × IsListed class_and_flow.flow_states class_and_flow.eligible_set
hfsc_scheduler-IsAccounted_example =
    hfsc_scheduler-IsAccounted class_config (flow_config ∷ []) 100_000_000 class_and_flow
      configs_make

abbrev arrivals : List (Option PacketDescriptor)
arrivals = some (packet_to 2 500) ∷ some (packet_to 1 300) ∷ []

arrivals_held : is_empty (run arrivals class_and_flow).0 ≡ false
unfolding is_empty lookup
arrivals_held =
    let made = hfsc_scheduler-IsAccounted class_config (flow_config ∷ []) _ _ configs_make in
    let (v, one, _) = enqueue-IsAccounted class_and_flow (packet_to 2 500) made.0 in
    let s' = (enqueue class_and_flow (packet_to 2 500)).0 in
    let (w, two, _) = enqueue-IsAccounted s' (packet_to 1 300) v in
    let on = w.configured in
    elim one [
      | inl (unknown, _, _) ↦ absurd (ground (arith, unknown))
      | inr (_, _, _, _, _, count, _) ↦ elim two [
        | inl (_, same, _) ↦
            let kept = ap (λ (x : HfscScheduler). x.total_packets) same in
            ground (arith, on, count, kept)
        | inr (_, _, _, _, _, count', _) ↦ ground (arith, on, count, count')
      ]
    ]

run_least_example :
    (((run arrivals class_and_flow).0.eligible_set ≡ [])
      × (dequeue (run arrivals class_and_flow).0
          ≡ ((run arrivals class_and_flow).0, err logic_error)))
    ⊎ ServesFirst (run arrivals class_and_flow).0
run_least_example =
    run_least class_config (flow_config ∷ []) 100_000_000 class_and_flow arrivals configs_make
      arrivals_held

dequeue_update_example : dequeue two_flows ≡ (
  (update_flow_schedule
      (record two_flows {
        flow_states =
            insert 1 (record fast { packet_queue = packet_to 1 200 ∷ [] }) two_flows.flow_states;
        eligible_set = record { virtual_finish_time = 4000; flow_id = 2 } ∷ [];
        total_packets = two_flows.total_packets - 1;
        current_virtual_time = 300;
      })
      1
      false).0,
  ok (packet_to 1 300),
)
unfolding is_empty lookup
dequeue_update_example =
    dequeue_update two_flows (record { virtual_finish_time = 300; flow_id = 1 })
      (record { virtual_finish_time = 4000; flow_id = 2 } ∷ []) fast (packet_to 1 300)
      (packet_to 1 200 ∷ []) refl refl refl refl refl refl
      (record { no_parent = refl; no_limit = refl })
