-- ===== src/Scheduler/Hfsc/Enqueue.antt =====
-- `enqueue` of the HFSC scheduler and the eligible set.
use hqts.Base.{
  ℕ, ◌+◌, ◌==◌, ◌≡◌, refl, inl, inr, Bool, true, false, List, [], ◌∷◌, ◌++◌, none, some, null, All,
  ok, err, lookup, insert, Bool-cases, Option-cases, List-cases, u64_max, logic_error, out_of_range,
  arith,
}
use hqts.Packet.{PacketDescriptor}
use hqts.Scheduler.Hfsc.Timing.{HfscFlowState}
use hqts.Scheduler.Hfsc.Eligible.{
  Differs, IsScheduled, insert-IsScheduled, push-IsScheduled, absent,
}
use hqts.Scheduler.Hfsc.{
  HfscScheduler, enrol, schedule_head, update_flow_schedule, enqueue_in, enqueue,
}

enrol-IsScheduled :
    (s : HfscScheduler) (id : ℕ) (f : HfscFlowState) (p : PacketDescriptor)
    (ps : List PacketDescriptor) (len : ℕ) (times : ℕ × ℕ)
    → IsScheduled s.flow_states s.eligible_set
    → f.flow_id ≡ id
    → f.packet_queue ≡ p ∷ ps
    → All (Differs id) s.eligible_set
    → let t = enrol s id f len times in IsScheduled t.flow_states t.eligible_set
unfolding enrol
enrol-IsScheduled s id f p ps len (eligible, vft) v name held apart =
    elim (Bool-cases (vft == u64_max)) [
      | inl e ↦ rw e v
      | inr e ↦ rw e (push-IsScheduled s.flow_states s.eligible_set id vft _ p ps v name held apart)
    ]

schedule_head-IsScheduled :
    (s : HfscScheduler) (id : ℕ) (newly : Bool) (f : HfscFlowState) (qs : List PacketDescriptor)
    → IsScheduled s.flow_states s.eligible_set
    → f.flow_id ≡ id
    → f.packet_queue ≡ qs
    → All (Differs id) s.eligible_set
    → let t = schedule_head s id newly f qs in IsScheduled t.flow_states t.eligible_set
unfolding schedule_head
schedule_head-IsScheduled s id newly f [] v name held apart = v
schedule_head-IsScheduled s id newly f (p ∷ ps) v name held apart =
    enrol-IsScheduled s id f p ps p.packet_length_bytes _ v name held apart

update_unknown :
    (s : HfscScheduler) (id : ℕ) (newly : Bool)
    → lookup id s.flow_states ≡ none
    → update_flow_schedule s id newly ≡ (s, err out_of_range)
unfolding update_flow_schedule
update_unknown s id newly e = rw (e, update_flow_schedule)

pub update_known :
    (s : HfscScheduler) (id : ℕ) (newly : Bool) (f : HfscFlowState)
    → lookup id s.flow_states ≡ some f
    → update_flow_schedule s id newly ≡ (schedule_head s id newly f f.packet_queue, ok tt)
unfolding update_flow_schedule
update_known s id newly f e = rw (e, update_flow_schedule)

update-IsScheduled :
    (s : HfscScheduler) (id : ℕ) (newly : Bool)
    → IsScheduled s.flow_states s.eligible_set
    → All (Differs id) s.eligible_set
    → let t = (update_flow_schedule s id newly).0 in IsScheduled t.flow_states t.eligible_set
update-IsScheduled s id newly v apart = elim (Option-cases (lookup id s.flow_states)) [
  | inl e ↦ rw (update_unknown s id newly e) v
  | inr (f, e) ↦
      rw (update_known s id newly f e)
        (schedule_head-IsScheduled s id newly f f.packet_queue v (v.named id f e) refl apart)
]

appended :
    (ps : List PacketDescriptor) (p : PacketDescriptor)
    → (q : PacketDescriptor) × (qs : List PacketDescriptor) × ((ps ++ p ∷ []) ≡ q ∷ qs)
appended [] p = (p, [], refl)
appended (q ∷ qs) p = (q, qs ++ p ∷ [], refl)

enqueue_in-IsScheduled :
    (s : HfscScheduler) (id : ℕ) (p : PacketDescriptor) (f : HfscFlowState)
    → IsScheduled s.flow_states s.eligible_set
    → lookup id s.flow_states ≡ some f
    → let t = (enqueue_in s id p f).0 in IsScheduled t.flow_states t.eligible_set
unfolding enqueue_in
enqueue_in-IsScheduled s id p f v found =
    let (q, qs, held) = appended f.packet_queue p in
    let f' : HfscFlowState = record f { packet_queue = f.packet_queue ++ p ∷ [] } in
    let t : HfscScheduler = record s {
      flow_states = insert id f' s.flow_states;
      total_packets = s.total_packets + 1;
    } in
    let stored =
      insert-IsScheduled s.flow_states s.eligible_set id f' q qs v (v.named id f found) held in
    elim (List-cases f.packet_queue) [
      | inl e ↦
          let apart = absent s.flow_states s.eligible_set id f found e v.waiting in
          let new : null f.packet_queue ≡ true = ground (arith, e) in
          rw new (update-IsScheduled t id true stored apart)
      | inr (h, hs, e) ↦ let old : null f.packet_queue ≡ false = ground (arith, e) in rw old stored
    ]

pub enqueue_off :
    (s : HfscScheduler) (p : PacketDescriptor)
    → s.is_configured ≡ false
    → enqueue s p ≡ (s, err logic_error)
unfolding enqueue
enqueue_off s p e = ground (arith, e)

pub enqueue_unknown :
    (s : HfscScheduler) (p : PacketDescriptor)
    → s.is_configured ≡ true
    → lookup p.priority s.flow_states ≡ none
    → enqueue s p ≡ (s, err out_of_range)
unfolding enqueue
enqueue_unknown s p on e = ground (arith, on, e)

pub enqueue_known :
    (s : HfscScheduler) (p : PacketDescriptor) (f : HfscFlowState)
    → s.is_configured ≡ true
    → lookup p.priority s.flow_states ≡ some f
    → enqueue s p ≡ enqueue_in s p.priority p f
unfolding enqueue
enqueue_known s p f on e = ground (arith, on, e)

-- `enqueue` keeps each flow under its own id and the eligible set in order, with each flow once at
-- most and only flows that hold a packet, given that they were; also where it throws.
pub enqueue-IsScheduled :
    (s : HfscScheduler) (p : PacketDescriptor)
    → IsScheduled s.flow_states s.eligible_set
    → IsScheduled (enqueue s p).0.flow_states (enqueue s p).0.eligible_set
enqueue-IsScheduled s p v = elim (Bool-cases s.is_configured) [
  | inr off ↦ rw (enqueue_off s p off) v
  | inl on ↦ elim (Option-cases (lookup p.priority s.flow_states)) [
    | inl e ↦ rw (enqueue_unknown s p on e) v
    | inr (f, e) ↦ rw (enqueue_known s p f on e) (enqueue_in-IsScheduled s p.priority p f v e)
  ]
]
