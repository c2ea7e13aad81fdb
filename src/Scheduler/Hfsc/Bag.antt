-- ===== src/Scheduler/Hfsc/Bag.antt =====
-- The packets of the HFSC scheduler, flow by flow, as its methods store and send.
use mathlib.Core.List.{Perm}
use hqts.Base.{
  ℕ, ◌+◌, ◌==◌, ◌≡◌, refl, ap, inl, inr, Bool, true, List, [], ◌∷◌, ◌++◌, some, Result, null, ok,
  lookup, insert, insert-set, Bool-cases, u64_max,
}
use hqts.Packet.{PacketDescriptor}
use hqts.Scheduler.Bank.{
  all_packets, all_packets-set_same, all_packets-set_push, all_packets-set_pop,
}
use hqts.Scheduler.Hfsc.Timing.{HfscFlowState, plan_alone}
use hqts.Scheduler.Hfsc.Eligible.{Flows, insert-found}
use hqts.Scheduler.Hfsc.Enqueue.{update_known}
use hqts.Scheduler.Hfsc.{
  HfscScheduler, enrol, schedule_head, update_flow_schedule, enqueue_in, reschedule,
}

abbrev pub contents_of : ℕ × HfscFlowState → List PacketDescriptor
contents_of (k, f) = f.packet_queue

abbrev pub packets_of : Flows → List PacketDescriptor
packets_of = all_packets contents_of

-- The packets of all flows, flow by flow.
abbrev pub packets : HfscScheduler → List PacketDescriptor
packets s = packets_of s.flow_states

pub insert_same :
    (flows : Flows) (k : ℕ) (f g : HfscFlowState)
    → lookup k flows ≡ some f
    → g.packet_queue ≡ f.packet_queue
    → packets_of (insert k g flows) ≡ packets_of flows
insert_same flows k f g found e =
    let (i, held, there, same) = insert-set k f g flows found in
    rw same (all_packets-set_same contents_of flows i (held, f) (held, g) there e)

insert_push :
    (flows : Flows) (k : ℕ) (f g : HfscFlowState) (p : PacketDescriptor)
    → lookup k flows ≡ some f
    → g.packet_queue ≡ f.packet_queue ++ p ∷ []
    → Perm (packets_of (insert k g flows)) (p ∷ packets_of flows)
insert_push flows k f g p found e =
    let (i, held, there, same) = insert-set k f g flows found in
    rw same (all_packets-set_push contents_of flows i (held, f) (held, g) p there e)

insert_pop :
    (flows : Flows) (k : ℕ) (f g : HfscFlowState) (p : PacketDescriptor)
    → lookup k flows ≡ some f
    → f.packet_queue ≡ p ∷ g.packet_queue
    → Perm (packets_of flows) (p ∷ packets_of (insert k g flows))
insert_pop flows k f g p found e =
    let (i, held, there, same) = insert-set k f g flows found in
    rw same (all_packets-set_pop contents_of flows i (held, f) (held, g) p there e)

-- What scheduling changes: times, not packets.
abbrev Settled : HfscScheduler → HfscScheduler → Type 0
Settled s t =
    (packets t ≡ packets s)
    × (t.total_packets ≡ s.total_packets)
    × (t.is_configured ≡ s.is_configured)

enrol-Settled :
    (s : HfscScheduler) (id : ℕ) (f : HfscFlowState) (len : ℕ) (times : ℕ × ℕ)
    → lookup id s.flow_states ≡ some f
    → Settled s (enrol s id f len times)
unfolding enrol
enrol-Settled s id f len (eligible, vft) found = elim (Bool-cases (vft == u64_max)) [
  | inl e ↦ rw e (refl, refl, refl)
  | inr e ↦ rw e (insert_same s.flow_states id f _ found refl, refl, refl)
]

schedule_head-Settled :
    (s : HfscScheduler) (id : ℕ) (newly : Bool) (f : HfscFlowState) (qs : List PacketDescriptor)
    → lookup id s.flow_states ≡ some f
    → Settled s (schedule_head s id newly f qs)
unfolding schedule_head
schedule_head-Settled s id newly f [] found = (refl, refl, refl)
schedule_head-Settled s id newly f (p ∷ ps) found =
    enrol-Settled s id f p.packet_length_bytes _ found

update_known-Settled :
    (s : HfscScheduler) (id : ℕ) (newly : Bool) (f : HfscFlowState)
    → lookup id s.flow_states ≡ some f
    → Settled s (update_flow_schedule s id newly).0
update_known-Settled s id newly f found =
    rw (update_known s id newly f found) (schedule_head-Settled s id newly f f.packet_queue found)

pub enqueue_in-packets :
    (s : HfscScheduler) (id : ℕ) (p : PacketDescriptor) (f : HfscFlowState)
    → lookup id s.flow_states ≡ some f
    → Perm (packets (enqueue_in s id p f).0) (p ∷ packets s)
      × ((enqueue_in s id p f).0.total_packets ≡ s.total_packets + 1)
      × ((enqueue_in s id p f).0.is_configured ≡ s.is_configured)
      × ((enqueue_in s id p f).1 ≡ ok tt)
unfolding enqueue_in
enqueue_in-packets s id p f found =
    let g : HfscFlowState = record f { packet_queue = f.packet_queue ++ p ∷ [] } in
    let t : HfscScheduler = record s {
      flow_states = insert id g s.flow_states;
      total_packets = s.total_packets + 1;
    } in
    let stored = insert_push s.flow_states id f g p found refl in
    let there : lookup id t.flow_states ≡ some g = insert-found s.flow_states id g in
    let (same, count, on) = update_known-Settled t id true g there in
    elim (Bool-cases (null f.packet_queue)) [
      | inl e ↦ rw e (
        rw same stored,
        count,
        on,
        ap (λ (r : HfscScheduler × Result (Unit {0})). r.1) (update_known t id true g there),
      )
      | inr e ↦ rw e (stored, refl, refl, refl)
    ]

-- Scheduling keeps the flow's queue.
enrol-queue :
    (s : HfscScheduler) (id : ℕ) (f : HfscFlowState) (len : ℕ) (times : ℕ × ℕ)
    → lookup id s.flow_states ≡ some f
    → (g : HfscFlowState) × (lookup id (enrol s id f len times).flow_states ≡ some g)
      × (g.packet_queue ≡ f.packet_queue)
unfolding enrol
enrol-queue s id f len (eligible, vft) found = elim (Bool-cases (vft == u64_max)) [
  | inl e ↦ rw e (f, found, refl)
  | inr e ↦ rw e (_, insert-found s.flow_states id _, refl)
]

schedule_head-queue :
    (s : HfscScheduler) (id : ℕ) (newly : Bool) (f : HfscFlowState) (qs : List PacketDescriptor)
    → lookup id s.flow_states ≡ some f
    → (g : HfscFlowState) × (lookup id (schedule_head s id newly f qs).flow_states ≡ some g)
      × (g.packet_queue ≡ f.packet_queue)
unfolding schedule_head
schedule_head-queue s id newly f [] found = (f, found, refl)
schedule_head-queue s id newly f (p ∷ ps) found = enrol-queue s id f p.packet_length_bytes _ found

pub enqueue_in-queue :
    (s : HfscScheduler) (id : ℕ) (p : PacketDescriptor) (f : HfscFlowState)
    → lookup id s.flow_states ≡ some f
    → (g : HfscFlowState) × (lookup id (enqueue_in s id p f).0.flow_states ≡ some g)
      × (g.packet_queue ≡ f.packet_queue ++ p ∷ [])
unfolding enqueue_in
enqueue_in-queue s id p f found =
    let g : HfscFlowState = record f { packet_queue = f.packet_queue ++ p ∷ [] } in
    let t : HfscScheduler = record s {
      flow_states = insert id g s.flow_states;
      total_packets = s.total_packets + 1;
    } in
    let there : lookup id t.flow_states ≡ some g = insert-found s.flow_states id g in
    elim (Bool-cases (null f.packet_queue)) [
      | inl e ↦
          rw (e, update_known t id true g there)
            (schedule_head-queue t id true g g.packet_queue there)
      | inr e ↦ rw e (g, there, refl)
    ]

pub reschedule-packets :
    (s : HfscScheduler) (id : ℕ) (f g : HfscFlowState) (p : PacketDescriptor)
    (ps : List PacketDescriptor)
    → lookup id s.flow_states ≡ some f
    → f.packet_queue ≡ p ∷ ps
    → g.packet_queue ≡ ps
    → Perm (packets s) (p ∷ packets (reschedule s id g ps))
      × ((reschedule s id g ps).total_packets ≡ s.total_packets)
      × ((reschedule s id g ps).is_configured ≡ s.is_configured)
unfolding reschedule
reschedule-packets s id f g p [] found held left =
    (insert_pop s.flow_states id f g p found (rw left held), refl, refl)
reschedule-packets s id f g p (q ∷ qs) found held left =
    let times = plan_alone s.current_virtual_time q.packet_length_bytes g in
    let h : HfscFlowState = record g {
      virtual_start_time = times.0;
      virtual_finish_time = times.1;
    } in
    elim (Bool-cases (times.1 == u64_max)) [
      | inl e ↦ rw e (insert_pop s.flow_states id f g p found (rw left held), refl, refl)
      | inr e ↦ rw e (insert_pop s.flow_states id f h p found (rw left held), refl, refl)
    ]
