-- ===== src/Scheduler/Hfsc/Reschedule.antt =====
-- The end of `dequeue` of the HFSC scheduler beside `update_flow_schedule`.
use hqts.Base.{
  ◌≢◌, ℕ, ◌-◌, ◌==◌, ◌≡◌, refl, ap, ◌∙◌, inl, inr, true, false, List, [], ◌∷◌, none, some,
  Bool-cases, ok, Result, subst, sym, if◌then◌else◌, lookup, insert, insert-insert, lookup-insert,
  u64_max, arith,
}
use hqts.Packet.{PacketDescriptor}
use hqts.Scheduler.Hfsc.Timing.{HfscFlowState, plan, plan_alone}
use hqts.Scheduler.Hfsc.Eligible.{Flows}
use hqts.Scheduler.Hfsc.Enqueue.{update_known}
use hqts.Scheduler.Hfsc.Dequeue.{dequeue_first}
use hqts.Scheduler.Hfsc.{
  HfscScheduler, EligibleFlow, enrol, parent_of, schedule_head, update_flow_schedule, is_empty,
  reschedule, served, push, dequeue,
}

-- A flow with no parent and no upper limit.
pub record IsPlain (f : HfscFlowState) : Type 0 where
  pub no_parent : f.parent_id ≡ 0
  pub no_limit : f.upper_limit_sc.rate_bps ≡ 0

-- The state with `f` under its id.
abbrev pub stored : HfscScheduler → ℕ → HfscFlowState → HfscScheduler
stored s id f = record s { flow_states = insert id f s.flow_states }

alone_none : (s : HfscScheduler) (f : HfscFlowState) → IsPlain f → parent_of s f ≡ none
unfolding parent_of
alone_none s f h = ground (arith, h.no_parent)

plan-none :
    (now base len : ℕ) (f : HfscFlowState) → plan now none f base len ≡ plan_alone base len f
unfolding plan
plan-none now base len f = refl

-- Both write the same flow state and the same entry.
enrol_same :
    (s : HfscScheduler) (f : HfscFlowState) (len : ℕ) (times : ℕ × ℕ)
    → IsPlain f
    → enrol (stored s f.flow_id f) f.flow_id f len times ≡ (
        if times.1 == u64_max then stored s f.flow_id f else record s {
          flow_states =
              insert f.flow_id
                (record f { virtual_start_time = times.0; virtual_finish_time = times.1 })
                s.flow_states;
          eligible_set =
              push (record { virtual_finish_time = times.1; flow_id = f.flow_id }) s.eligible_set;
        })
unfolding enrol
enrol_same s f len (eligible, vft) h = elim (Bool-cases (vft == u64_max)) [
  | inl e ↦ rw e refl
  | inr e ↦ rw (e, h.no_limit, insert-insert) refl
]

reschedule_update :
    (s : HfscScheduler) (f : HfscFlowState) (ps : List PacketDescriptor)
    → IsPlain f
    → reschedule s f.flow_id f ps ≡ schedule_head (stored s f.flow_id f) f.flow_id false f ps
unfolding reschedule schedule_head
reschedule_update s f [] h = refl
reschedule_update s f (p ∷ ps) h =
    rw (alone_none (stored s f.flow_id f) f h, plan-none)
      (sym (enrol_same s f p.packet_length_bytes _ h))

reschedule_found :
    (s : HfscScheduler) (id : ℕ) (f : HfscFlowState)
    → f.flow_id ≡ id
    → IsPlain f
    → reschedule s id f f.packet_queue ≡ (update_flow_schedule (stored s id f) id false).0
reschedule_found s id f name h =
    let there : lookup id (insert id f s.flow_states) ≡ some f =
      ground (arith, lookup-insert id id f s.flow_states) in
    subst
      (λ (k : ℕ).
        reschedule s k f f.packet_queue ≡ schedule_head (stored s k f) k false f f.packet_queue)
      name (reschedule_update s f f.packet_queue h)
    ∙ sym (
        ap (λ (r : HfscScheduler × Result (Unit {0})). r.0)
          (update_known (stored s id f) id false f there))

served_plain :
    (f : HfscFlowState) (len : ℕ) (ps : List PacketDescriptor)
    → IsPlain f
    → served f len ps ≡ record f { packet_queue = ps }
unfolding served
served_plain f len ps h = rw h.no_limit refl

-- From a configured scheduler that holds a packet, whose first eligible entry names a configured
-- flow `f` that has no parent and no upper limit and holds `p` first: `dequeue` returns `p`, and does
-- to the rest what `update_flow_schedule` does, for a flow that is not newly active, to the state
-- in which the entry and the packet are gone and the virtual time is that of the entry.
pub dequeue_update :
    (s : HfscScheduler) (next : EligibleFlow) (rest : List EligibleFlow) (f : HfscFlowState)
    (p : PacketDescriptor) (ps : List PacketDescriptor)
    → s.is_configured ≡ true
    → is_empty s ≡ false
    → s.eligible_set ≡ next ∷ rest
    → lookup next.flow_id s.flow_states ≡ some f
    → f.flow_id ≡ next.flow_id
    → f.packet_queue ≡ p ∷ ps
    → IsPlain f
    → dequeue s ≡ (
      (update_flow_schedule
          (record s {
            flow_states = insert next.flow_id (record f { packet_queue = ps }) s.flow_states;
            eligible_set = rest;
            total_packets = s.total_packets - 1;
            current_virtual_time = next.virtual_finish_time;
          })
          next.flow_id
          false).0,
      ok p,
    )
dequeue_update s next rest f p ps on some_held e found name held h =
    let t : HfscScheduler = record s {
      eligible_set = rest;
      total_packets = s.total_packets - 1;
      current_virtual_time = next.virtual_finish_time;
    } in
    let g : HfscFlowState = record f { packet_queue = ps } in
    let plain : IsPlain g = record { no_parent = h.no_parent; no_limit = h.no_limit } in
    dequeue_first s next rest f p ps on some_held e found held
    ∙ ap (λ (x : HfscFlowState). (reschedule t next.flow_id x ps, ok p))
        (served_plain f p.packet_length_bytes ps h)
    ∙ ap (λ (x : HfscScheduler). (x, ok p)) (reschedule_found t next.flow_id g name plain)

reschedule_entries :
    (s : HfscScheduler) (id : ℕ) (f : HfscFlowState) (ps : List PacketDescriptor) (flows : Flows)
    → (reschedule (record s { flow_states = flows }) id f ps).eligible_set
      ≡ (reschedule s id f ps).eligible_set
unfolding reschedule
reschedule_entries s id f [] flows = refl
reschedule_entries s id f (p ∷ ps) flows =
    let times = plan_alone s.current_virtual_time p.packet_length_bytes f in
    elim (Bool-cases (times.1 == u64_max)) [ inl e ↦ rw e refl | inr e ↦ rw e refl ]

-- From a configured scheduler that holds a packet, whose first eligible entry names a configured
-- flow that holds a packet: whatever the state of any one other flow becomes, the parent of that
-- flow among them, `dequeue` returns the same packet and leaves the same eligible set.
pub dequeue_others :
    (s : HfscScheduler) (next : EligibleFlow) (rest : List EligibleFlow) (f : HfscFlowState)
    (p : PacketDescriptor) (ps : List PacketDescriptor) (other : ℕ) (g : HfscFlowState)
    → s.is_configured ≡ true
    → is_empty s ≡ false
    → s.eligible_set ≡ next ∷ rest
    → lookup next.flow_id s.flow_states ≡ some f
    → f.packet_queue ≡ p ∷ ps
    → other ≢ next.flow_id
    → let changed = dequeue (stored s other g) in
      (changed.1 ≡ (dequeue s).1) × (changed.0.eligible_set ≡ (dequeue s).0.eligible_set)
unfolding is_empty
dequeue_others s next rest f p ps other g on some_held e found held ne =
    let held' : is_empty (stored s other g) ≡ false = some_held in
    let found' : lookup next.flow_id (insert other g s.flow_states) ≡ some f =
      ground (arith, ne, found, lookup-insert other next.flow_id g s.flow_states) in
    let t : HfscScheduler = record s {
      eligible_set = rest;
      total_packets = s.total_packets - 1;
      current_virtual_time = next.virtual_finish_time;
    } in
    rw
      (
        dequeue_first s next rest f p ps on some_held e found held,
        dequeue_first (stored s other g) next rest f p ps on held' e found' held,
      )
      (
        refl,
        reschedule_entries t next.flow_id (served f p.packet_length_bytes ps) ps
            (insert other g s.flow_states),
      )
