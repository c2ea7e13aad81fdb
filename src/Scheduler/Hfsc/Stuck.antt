-- ===== src/Scheduler/Hfsc/Stuck.antt =====
-- Flows with neither a real-time nor a link-share curve.
use hqts.Base.{
  ℕ, ◌+◌, ◌≡◌, refl, ap, ◌∙◌, inl, inr, true, false, List, [], ◌∷◌, ◌++◌, Option, none, some, null,
  ok, err, logic_error, lookup, insert, lookup-insert, Bool-cases, u64_max, arith,
}
use hqts.Packet.{PacketDescriptor}
use hqts.Scheduler.Hfsc.Timing.{
  HfscFlowState, plan, plan_alone, choose, limit, delay_by, service_time,
}
use hqts.Scheduler.Hfsc.Enqueue.{enqueue_known, update_known}
use hqts.Scheduler.Hfsc.Dequeue.{dequeue_select}
use hqts.Scheduler.Hfsc.{
  HfscScheduler, EligibleFlow, enrol, schedule_head, enqueue_in, enqueue, is_empty, select, dequeue,
  parent_of,
}

-- A flow with neither curve.
pub record HasNoCurve (f : HfscFlowState) : Type 0 where
  pub real_time : f.real_time_sc.rate_bps ≡ 0
  pub link_share : f.link_share_sc.rate_bps ≡ 0

choose-none : (base len : ℕ) (f : HfscFlowState) → HasNoCurve f → choose base len f ≡ (0, u64_max)
unfolding choose
choose-none base len f c = ground (arith, c.real_time, c.link_share)

limit-none : (base : ℕ) (f : HfscFlowState) → (limit base f (0, u64_max)).1 ≡ u64_max
unfolding limit
limit-none base f = ground arith

delay-none :
    (times : ℕ × ℕ) (service parent_eligible : ℕ)
    → service ≡ u64_max
    → (delay_by times service parent_eligible).1 ≡ u64_max
unfolding delay_by
delay-none times service parent_eligible e = ground (arith, e)

plan-none :
    (now : ℕ) (parent : Option HfscFlowState) (f : HfscFlowState) (base len : ℕ)
    → HasNoCurve f
    → (plan now parent f base len).1 ≡ u64_max
unfolding plan plan_alone service_time
plan-none now none f base len c = rw (choose-none base len f c) (limit-none base f)
plan-none now (some parent) f base len c =
    delay-none (plan_alone base len f) (service_time (choose base len f)) _
      (rw (choose-none base len f c) refl)

enrol-none :
    (s : HfscScheduler) (id : ℕ) (f : HfscFlowState) (len : ℕ) (times : ℕ × ℕ)
    → times.1 ≡ u64_max
    → enrol s id f len times ≡ s
unfolding enrol
enrol-none s id f len times e = ground (arith, e)

-- The state after a packet is queued, before it is scheduled.
abbrev pub queued : HfscScheduler → ℕ → HfscFlowState → PacketDescriptor → HfscScheduler
queued s id f p = record s {
  flow_states = insert id (record f { packet_queue = f.packet_queue ++ p ∷ [] }) s.flow_states;
  total_packets = s.total_packets + 1;
}

schedule-none :
    (s : HfscScheduler) (id : ℕ) (f : HfscFlowState) (qs : List PacketDescriptor)
    → HasNoCurve f
    → schedule_head s id true f qs ≡ s
unfolding schedule_head
schedule-none s id f [] c = refl
schedule-none s id f (p ∷ ps) c =
    enrol-none s id f p.packet_length_bytes _ (plan-none _ (parent_of s f) f _ _ c)

enqueue-none :
    (s : HfscScheduler) (p : PacketDescriptor) (f : HfscFlowState)
    → s.is_configured ≡ true
    → lookup p.priority s.flow_states ≡ some f
    → HasNoCurve f
    → enqueue s p ≡ (queued s p.priority f p, ok tt)
unfolding enqueue_in
enqueue-none s p f on found c =
    let g : HfscFlowState = record f { packet_queue = f.packet_queue ++ p ∷ [] } in
    let t = queued s p.priority f p in
    let there : lookup p.priority t.flow_states ≡ some g =
      ground (arith, lookup-insert p.priority p.priority g s.flow_states) in
    let none : HasNoCurve g = record { real_time = c.real_time; link_share = c.link_share } in
    let same =
      update_known t p.priority true g there
      ∙ ap (λ (x : HfscScheduler). (x, ok tt)) (schedule-none t p.priority g g.packet_queue none) in
    enqueue_known s p f on found
    ∙ (elim (Bool-cases (null f.packet_queue)) [ inl e ↦ rw e same | inr e ↦ rw e refl ])

-- On a configured scheduler whose eligible set is empty, a packet for a flow that has neither a
-- real-time nor a link-share curve is stored without an error, and the scheduler then counts it, is
-- not empty, and throws the logic error at `dequeue`.
pub dequeue_stuck :
    (s : HfscScheduler) (p : PacketDescriptor) (f : HfscFlowState)
    → s.is_configured ≡ true
    → s.eligible_set ≡ []
    → lookup p.priority s.flow_states ≡ some f
    → HasNoCurve f
    → let (s', r) = enqueue s p in
      (r ≡ ok tt)
      × (s'.total_packets ≡ s.total_packets + 1)
      × (is_empty s' ≡ false)
      × (dequeue s' ≡ (s', err logic_error))
unfolding is_empty select
dequeue_stuck s p f on e found c =
    let t = queued s p.priority f p in
    let held : is_empty t ≡ false = ground (arith, on) in
    rw (enqueue-none s p f on found c)
      (refl, refl, held, dequeue_select t on held ∙ ap (λ (es : List EligibleFlow). select t es) e)
