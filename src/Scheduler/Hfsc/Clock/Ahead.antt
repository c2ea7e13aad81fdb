-- ===== src/Scheduler/Hfsc/Clock/Ahead.antt =====
-- `enqueue` of the HFSC scheduler, its virtual time and the finish times of the eligible set.
use hqts.Base.{
  ℕ, ◌+◌, ◌^◌, ◌≤◌, ◌<◌, ◌==◌, ◌≡◌, refl, inl, inr, true, max, List, [], ◌∷◌, ◌++◌, All, All-append,
  some, null, lookup, insert, lookup-insert, u64_max, Bool-cases, Option-cases, if◌then◌else◌,
  arith, Bool,
}
use hqts.Packet.{PacketDescriptor}
use hqts.Scheduler.Hfsc.Timing.{HfscFlowState}
use hqts.Scheduler.Hfsc.Clock.{IsCalm, CalmParent, IsTimely, plan-IsTimely}
use hqts.Scheduler.Hfsc.Flows.{AllFlows, insert-AllFlows}
use hqts.Scheduler.Hfsc.Eligible.{Flows, All-push}
use hqts.Scheduler.Hfsc.Enqueue.{enqueue_off, enqueue_unknown, enqueue_known, update_known}
use hqts.Scheduler.Hfsc.{
  HfscScheduler, EligibleFlow, parent_of, enrol, schedule_head, enqueue_in, enqueue,
}

abbrev pub AllCalm : Flows → Type 0
AllCalm = AllFlows IsCalm

-- No eligible flow finishes before time `now`.
abbrev pub Ahead : ℕ → List EligibleFlow → Type 0
Ahead now es = All (λ e. now ≤ e.virtual_finish_time) es

pub parent_of-CalmParent :
    (s : HfscScheduler) (f : HfscFlowState) → AllCalm s.flow_states → CalmParent (parent_of s f)
unfolding parent_of
parent_of-CalmParent s f v = elim (Bool-cases (f.parent_id == 0)) [
  | inl e ↦ rw e tt
  | inr e ↦ elim (Option-cases (lookup f.parent_id s.flow_states)) [
    | inl none_there ↦ rw (e, none_there) tt
    | inr (g, there) ↦ rw (e, there) (v f.parent_id g there)
  ]
]

enrol-Ahead :
    (s : HfscScheduler) (id base len : ℕ) (f : HfscFlowState) (times : ℕ × ℕ)
    → s.current_virtual_time ≤ base
    → IsTimely base times
    → Ahead s.current_virtual_time s.eligible_set
    → let t = enrol s id f len times in
      Ahead s.current_virtual_time t.eligible_set
      × (t.current_virtual_time ≡ s.current_virtual_time)
unfolding enrol
enrol-Ahead s id base len f (eligible, vft) low t h = elim (Bool-cases (vft == u64_max)) [
  | inl e ↦ rw e (h, refl)
  | inr e ↦
      let o = t.order in
      rw e (
        All-push (λ x. s.current_virtual_time ≤ x.virtual_finish_time) _ s.eligible_set
            (ground arith) h,
        refl,
      )
]

schedule_head-Ahead :
    (s : HfscScheduler) (id : ℕ) (newly : Bool) (f : HfscFlowState) (qs : List PacketDescriptor)
    → s.current_virtual_time ≤ 2 ^ 62
    → AllCalm s.flow_states
    → IsCalm f
    → All (λ (p : PacketDescriptor). p.packet_length_bytes < 2 ^ 32) qs
    → Ahead s.current_virtual_time s.eligible_set
    → let t = schedule_head s id newly f qs in
      Ahead s.current_virtual_time t.eligible_set
      × (t.current_virtual_time ≡ s.current_virtual_time)
unfolding schedule_head
schedule_head-Ahead s id newly f [] now v c l h = (h, refl)
schedule_head-Ahead s id newly f (p ∷ ps) now v c (l, ls) h =
    let finish = c.finish in
    let base =
      if newly then max s.current_virtual_time f.virtual_finish_time else s.current_virtual_time in
    let low : s.current_virtual_time ≤ base = ground arith in
    let high : base ≤ 2 ^ 62 = ground arith in
    enrol-Ahead s id base p.packet_length_bytes f _ low
      (plan-IsTimely s.current_virtual_time base p.packet_length_bytes (parent_of s f) f now high
        (parent_of-CalmParent s f v) c l)
      h

pub queued-IsCalm :
    (f : HfscFlowState) (p : PacketDescriptor)
    → IsCalm f
    → p.packet_length_bytes < 2 ^ 32
    → IsCalm (record f { packet_queue = f.packet_queue ++ p ∷ [] })
queued-IsCalm f p c l = record {
  real_time = c.real_time;
  link_share = c.link_share;
  upper_limit = c.upper_limit;
  start = c.start;
  finish = c.finish;
  finish_ul = c.finish_ul;
  lengths = All-append _ f.packet_queue (p ∷ []) c.lengths (l, tt);
}

enqueue_in-Ahead :
    (s : HfscScheduler) (id : ℕ) (p : PacketDescriptor) (f : HfscFlowState)
    → s.current_virtual_time ≤ 2 ^ 62
    → AllCalm s.flow_states
    → lookup id s.flow_states ≡ some f
    → p.packet_length_bytes < 2 ^ 32
    → Ahead s.current_virtual_time s.eligible_set
    → let t = (enqueue_in s id p f).0 in
      Ahead s.current_virtual_time t.eligible_set
      × (t.current_virtual_time ≡ s.current_virtual_time)
unfolding enqueue_in
enqueue_in-Ahead s id p f now v found l h =
    let g : HfscFlowState = record f { packet_queue = f.packet_queue ++ p ∷ [] } in
    let t : HfscScheduler = record s {
      flow_states = insert id g s.flow_states;
      total_packets = s.total_packets + 1;
    } in
    let calm = queued-IsCalm f p (v id f found) l in
    let there : lookup id t.flow_states ≡ some g =
      ground (arith, lookup-insert id id g s.flow_states) in
    elim (Bool-cases (null f.packet_queue)) [
      | inl e ↦
          rw (e, update_known t id true g there)
            (schedule_head-Ahead t id true g g.packet_queue now
              (insert-AllFlows IsCalm s.flow_states id g v calm) calm calm.lengths h)
      | inr e ↦ rw e (h, refl)
    ]

-- While the virtual time and the times and delays of all flows stay far below 2 ^ 64, `enqueue` of a
-- packet whose length is a `uint32_t` keeps the virtual time, and every finish time of the eligible
-- set at that time or later.
pub enqueue-Ahead :
    (s : HfscScheduler) (p : PacketDescriptor)
    → s.current_virtual_time ≤ 2 ^ 62
    → AllCalm s.flow_states
    → p.packet_length_bytes < 2 ^ 32
    → Ahead s.current_virtual_time s.eligible_set
    → ((enqueue s p).0.current_virtual_time ≡ s.current_virtual_time)
      × Ahead s.current_virtual_time (enqueue s p).0.eligible_set
enqueue-Ahead s p now v l h = elim (Bool-cases s.is_configured) [
  | inr off ↦ rw (enqueue_off s p off) (refl, h)
  | inl on ↦ elim (Option-cases (lookup p.priority s.flow_states)) [
    | inl e ↦ rw (enqueue_unknown s p on e) (refl, h)
    | inr (f, e) ↦
        let (ahead, same) = enqueue_in-Ahead s p.priority p f now v e l h in
        rw (enqueue_known s p f on e) (same, ahead)
  ]
]
