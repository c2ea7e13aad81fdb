-- ===== src/Scheduler/Hfsc.antt =====
-- hqts/include/hqts/scheduler/hfsc_scheduler.h and hqts/src/scheduler/hfsc_scheduler.cpp, with the
-- plain queue of hqts/include/hqts/scheduler/queue_types.h. The times are `uint64_t` and wrap. The
-- priority queue of eligible flows is a list in order, the least first; `std::map` is an
-- association list.
pub mod Timing
pub mod Configure
pub mod Eligible
pub mod Enqueue
pub mod Dequeue
pub mod Stuck
pub mod Configured
pub mod Bag
pub mod Contract
pub mod Fresh
pub mod Reschedule
pub mod Flows
pub mod Clock
pub mod Dated
pub mod Least
pub mod Live
use hqts.Base.{
  ℕ, suc, ◌+◌, ◌-◌, ◌==◌, max, Bool, true, false, not, ◌||◌, ◌&&◌, List, [], ◌∷◌, ◌++◌, Option,
  none, some, length, null, ltb, if◌then◌else◌, Result, ok, err, invalid_argument, out_of_range,
  runtime_error, logic_error, lookup, insert, u64_max, add64,
}
use hqts.Packet.{PacketDescriptor}
use Timing.{ServiceCurve, HfscFlowState, calculate_packet_service_time_us, plan, plan_alone}

pub record EligibleFlow : Type 0 where
  pub virtual_finish_time : ℕ
  pub flow_id : ℕ

pub record HfscScheduler : Type 0 where
  pub flow_states : List (ℕ × HfscFlowState)
  pub total_link_bandwidth_bps : ℕ
  pub current_virtual_time : ℕ
  pub total_packets : ℕ
  pub is_configured : Bool
  pub eligible_set : List EligibleFlow

-- operator>
unfoldable pub greater : EligibleFlow → EligibleFlow → Bool
greater x y =
    if not (x.virtual_finish_time == y.virtual_finish_time)
    then ltb y.virtual_finish_time x.virtual_finish_time
    else ltb y.flow_id x.flow_id

pub push : EligibleFlow → List EligibleFlow → List EligibleFlow
push e [] = e ∷ []
push e (x ∷ xs) = if greater e x then x ∷ push e xs else e ∷ x ∷ xs

-- The parent's state, if the flow has a parent.
pub parent_of : HfscScheduler → HfscFlowState → Option HfscFlowState
parent_of s f = if f.parent_id == 0 then none else lookup f.parent_id s.flow_states

-- Step 4 of `update_flow_schedule`, where `eligible` and `vft` are the times found.
pub enrol : HfscScheduler → ℕ → HfscFlowState → ℕ → ℕ × ℕ → HfscScheduler
enrol s id f len (eligible, vft) = if vft == u64_max then s else record s {
  flow_states =
      insert id
        (record f {
          virtual_start_time = eligible;
          virtual_finish_time = vft;
          virtual_finish_time_ul =
              if ltb 0 f.upper_limit_sc.rate_bps
              then add64 eligible (calculate_packet_service_time_us len f.upper_limit_sc)
              else f.virtual_finish_time_ul;
        })
        s.flow_states;
  eligible_set = push (record { virtual_finish_time = vft; flow_id = id }) s.eligible_set;
}

-- `update_flow_schedule` on the flow's packets.
pub schedule_head : HfscScheduler → ℕ → Bool → HfscFlowState → List PacketDescriptor → HfscScheduler
schedule_head s id is_newly_active f [] = s
schedule_head s id is_newly_active f (p ∷ ps) =
    let base =
      if is_newly_active
      then max s.current_virtual_time f.virtual_finish_time
      else s.current_virtual_time in
    enrol s id f p.packet_length_bytes
      (plan s.current_virtual_time (parent_of s f) f base p.packet_length_bytes)

pub update_flow_schedule : HfscScheduler → ℕ → Bool → HfscScheduler × Result (Unit {0})
update_flow_schedule s id is_newly_active = elim (lookup id s.flow_states) [
  | none ↦ (s, err out_of_range)
  | some f ↦ (schedule_head s id is_newly_active f f.packet_queue, ok tt)
]

-- `enqueue` on the flow found.
pub enqueue_in :
    HfscScheduler → ℕ → PacketDescriptor → HfscFlowState → HfscScheduler × Result (Unit {0})
enqueue_in s id p f =
    let t = record s {
      flow_states = insert id (record f { packet_queue = f.packet_queue ++ p ∷ [] }) s.flow_states;
      total_packets = s.total_packets + 1;
    } in
    let scheduled = update_flow_schedule t id true in
    if null f.packet_queue then scheduled else (t, ok tt)

-- `packet.priority` is the id of the flow.
pub enqueue : HfscScheduler → PacketDescriptor → HfscScheduler × Result (Unit {0})
enqueue s p =
    if s.is_configured
    then elim (lookup p.priority s.flow_states) [
      | none ↦ (s, err out_of_range)
      | some f ↦ enqueue_in s p.priority p f
    ]
    else (s, err logic_error)

unfoldable pub is_empty : HfscScheduler → Bool
is_empty s = if s.is_configured then s.total_packets == 0 else true

-- The rest of `dequeue` on flow `id`, whose state `f` has lost the packet of `len` bytes and is left
-- with `ps`: the next packet is planned by the flow's own curves.
pub reschedule : HfscScheduler → ℕ → HfscFlowState → List PacketDescriptor → HfscScheduler
reschedule s id f [] = record s { flow_states = insert id f s.flow_states }
reschedule s id f (p ∷ ps) =
    let (eligible, vft) = plan_alone s.current_virtual_time p.packet_length_bytes f in
    if vft == u64_max then record s { flow_states = insert id f s.flow_states } else record s {
      flow_states =
          insert id (record f { virtual_start_time = eligible; virtual_finish_time = vft })
            s.flow_states;
      eligible_set =
          push (record { virtual_finish_time = vft; flow_id = f.flow_id }) s.eligible_set;
    }

-- The flow after it has lost a packet of `len` bytes.
pub served : HfscFlowState → ℕ → List PacketDescriptor → HfscFlowState
served f len ps = record f {
  packet_queue = ps;
  virtual_finish_time_ul =
      if ltb 0 f.upper_limit_sc.rate_bps
      then add64 f.virtual_start_time (calculate_packet_service_time_us len f.upper_limit_sc)
      else f.virtual_finish_time_ul;
}

-- The selected flow, of the queue given; the eligible set has lost its entry.
pub serve :
    HfscScheduler
    → EligibleFlow
    → HfscFlowState
    → List PacketDescriptor
    → HfscScheduler × Result PacketDescriptor
serve s next f [] = (s, err logic_error)
serve s next f (p ∷ ps) =
    let t = record s {
      total_packets = s.total_packets - 1;
      current_virtual_time = next.virtual_finish_time;
    } in
    (reschedule t next.flow_id (served f p.packet_length_bytes ps) ps, ok p)

pub select : HfscScheduler → List EligibleFlow → HfscScheduler × Result PacketDescriptor
select s [] = (s, err logic_error)
select s (next ∷ rest) =
    let t = record s { eligible_set = rest } in
    elim (lookup next.flow_id s.flow_states) [
      | none ↦ (t, err out_of_range)
      | some f ↦ serve t next f f.packet_queue
    ]

pub dequeue : HfscScheduler → HfscScheduler × Result PacketDescriptor
dequeue s =
    if s.is_configured
    then (if is_empty s then (s, err runtime_error) else select s s.eligible_set)
    else (s, err logic_error)

pub get_num_configured_flows : HfscScheduler → ℕ
get_num_configured_flows s = length s.flow_states

pub get_flow_queue_size : HfscScheduler → ℕ → Result ℕ
get_flow_queue_size s id = elim (lookup id s.flow_states) [
  | none ↦ err out_of_range
  | some f ↦ ok (length f.packet_queue)
]
