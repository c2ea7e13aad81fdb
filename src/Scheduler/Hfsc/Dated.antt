-- ===== src/Scheduler/Hfsc/Dated.antt =====
-- The entries of the eligible set carry the finish times of their flows.
use hqts.Base.{
  ℕ, ◌+◌, ◌-◌, ◌==◌, ◌≡◌, refl, sym, ap, subst, ◌∙◌, inl, inr, true, false, Bool, List, [], ◌∷◌,
  ◌++◌, some, null, All, All-mono, lookup, insert, lookup-insert, u64_max, Bool-cases, Option-cases,
  List-cases, arith,
}
use mathlib.Core.Option.{some-injective}
use hqts.Packet.{PacketDescriptor}
use hqts.Scheduler.Hfsc.Timing.{HfscFlowState, plan_alone}
use hqts.Scheduler.Hfsc.Eligible.{
  Flows, Differs, IsScheduled, All-push, All-both, insert-found, absent,
}
use hqts.Scheduler.Hfsc.Enqueue.{update_known, enqueue_unknown, enqueue_known}
use hqts.Scheduler.Hfsc.Dequeue.{dequeue_empty, dequeue_select, dequeue_first}
use hqts.Scheduler.Hfsc.{
  HfscScheduler, EligibleFlow, push, enrol, schedule_head, enqueue_in, enqueue, is_empty,
  reschedule, served, select, dequeue,
}

-- The entry's time is the finish time of its flow.
abbrev pub HasTime : Flows → EligibleFlow → Type 0
HasTime flows e =
    (f : HfscFlowState) × (lookup e.flow_id flows ≡ some f)
    × (f.virtual_finish_time ≡ e.virtual_finish_time)

abbrev pub IsDated : HfscScheduler → Type 0
IsDated s = All (HasTime s.flow_states) s.eligible_set

insert-HasTime :
    (flows : Flows) (k : ℕ) (g : HfscFlowState) (e : EligibleFlow)
    → Differs k e
    → HasTime flows e
    → HasTime (insert k g flows) e
insert-HasTime flows k g e d (f, found, time) =
    (f, ground (arith, d, found, lookup-insert k e.flow_id g flows), time)

insert-IsDated :
    (flows : Flows) (es : List EligibleFlow) (k : ℕ) (g : HfscFlowState)
    → All (Differs k) es
    → All (HasTime flows) es
    → All (HasTime (insert k g flows)) es
insert-IsDated flows es k g apart h =
    All-mono (λ x. Differs k x × HasTime flows x) _ es (λ x (d, w). insert-HasTime flows k g x d w)
      (All-both _ _ es apart h)

push-IsDated :
    (flows : Flows) (es : List EligibleFlow) (k vft : ℕ) (g : HfscFlowState)
    → g.virtual_finish_time ≡ vft
    → All (Differs k) es
    → All (HasTime flows) es
    → All (HasTime (insert k g flows)) (push (record { virtual_finish_time = vft; flow_id = k }) es)
push-IsDated flows es k vft g time apart h =
    All-push _ _ es (g, insert-found flows k g, time) (insert-IsDated flows es k g apart h)

-- A change of one flow that keeps its finish time.
insert-HasTime_kept :
    (flows : Flows) (k : ℕ) (f g : HfscFlowState) (e : EligibleFlow)
    → lookup k flows ≡ some f
    → g.virtual_finish_time ≡ f.virtual_finish_time
    → HasTime flows e
    → HasTime (insert k g flows) e
insert-HasTime_kept flows k f g e found kept (h, there, time) = elim (Bool-cases (k == e.flow_id)) [
  | inl same ↦
      let id : k ≡ e.flow_id = ground (arith, same) in
      let one : f ≡ h = some-injective _ _ (sym found ∙ (rw id there)) in
      (
        g,
        ground (arith, same, lookup-insert k e.flow_id g flows),
        kept ∙ ap (λ (x : HfscFlowState). x.virtual_finish_time) one ∙ time,
      )
  | inr other ↦ (h, ground (arith, other, there, lookup-insert k e.flow_id g flows), time)
]

enrol-IsDated :
    (s : HfscScheduler) (id : ℕ) (f : HfscFlowState) (len : ℕ) (times : ℕ × ℕ)
    → All (Differs id) s.eligible_set
    → IsDated s
    → IsDated (enrol s id f len times)
unfolding enrol
enrol-IsDated s id f len (eligible, vft) apart h = elim (Bool-cases (vft == u64_max)) [
  | inl e ↦ rw e h
  | inr e ↦ rw e (push-IsDated s.flow_states s.eligible_set id vft _ refl apart h)
]

schedule_head-IsDated :
    (s : HfscScheduler) (id : ℕ) (newly : Bool) (f : HfscFlowState) (qs : List PacketDescriptor)
    → All (Differs id) s.eligible_set
    → IsDated s
    → IsDated (schedule_head s id newly f qs)
unfolding schedule_head
schedule_head-IsDated s id newly f [] apart h = h
schedule_head-IsDated s id newly f (p ∷ ps) apart h =
    enrol-IsDated s id f p.packet_length_bytes _ apart h

enqueue_in-IsDated :
    (s : HfscScheduler) (id : ℕ) (p : PacketDescriptor) (f : HfscFlowState)
    → IsScheduled s.flow_states s.eligible_set
    → lookup id s.flow_states ≡ some f
    → IsDated s
    → IsDated (enqueue_in s id p f).0
unfolding enqueue_in
enqueue_in-IsDated s id p f v found h =
    let g : HfscFlowState = record f { packet_queue = f.packet_queue ++ p ∷ [] } in
    let t : HfscScheduler = record s {
      flow_states = insert id g s.flow_states;
      total_packets = s.total_packets + 1;
    } in
    let there : lookup id t.flow_states ≡ some g = insert-found s.flow_states id g in
    let stored : IsDated t =
      All-mono _ _ s.eligible_set (λ x. insert-HasTime_kept s.flow_states id f g x found refl) h in
    elim (List-cases f.packet_queue) [
      | inl e ↦
          let apart = absent s.flow_states s.eligible_set id f found e v.waiting in
          let idle : null f.packet_queue ≡ true = rw e refl in
          rw (idle, update_known t id true g there)
            (schedule_head-IsDated t id true g g.packet_queue apart stored)
      | inr (q, qs, e) ↦ let busy : null f.packet_queue ≡ false = rw e refl in rw busy stored
    ]

pub enqueue-IsDated :
    (s : HfscScheduler) (p : PacketDescriptor)
    → s.is_configured ≡ true
    → IsScheduled s.flow_states s.eligible_set
    → IsDated s
    → IsDated (enqueue s p).0
enqueue-IsDated s p on v h = elim (Option-cases (lookup p.priority s.flow_states)) [
  | inl e ↦ rw (enqueue_unknown s p on e) h
  | inr (f, e) ↦ rw (enqueue_known s p f on e) (enqueue_in-IsDated s p.priority p f v e h)
]

reschedule-IsDated :
    (s : HfscScheduler) (f : HfscFlowState) (ps : List PacketDescriptor)
    → All (Differs f.flow_id) s.eligible_set
    → IsDated s
    → IsDated (reschedule s f.flow_id f ps)
unfolding reschedule
reschedule-IsDated s f [] apart h = insert-IsDated s.flow_states s.eligible_set f.flow_id f apart h
reschedule-IsDated s f (p ∷ ps) apart h =
    let times = plan_alone s.current_virtual_time p.packet_length_bytes f in
    elim (Bool-cases (times.1 == u64_max)) [
      | inl e ↦ rw e (insert-IsDated s.flow_states s.eligible_set f.flow_id f apart h)
      | inr e ↦ rw e (push-IsDated s.flow_states s.eligible_set f.flow_id times.1 _ refl apart h)
    ]

pub dequeue-IsDated :
    (s : HfscScheduler)
    → s.is_configured ≡ true
    → IsScheduled s.flow_states s.eligible_set
    → IsDated s
    → IsDated (dequeue s).0
unfolding select served
dequeue-IsDated s on v h = elim (Bool-cases (is_empty s)) [
  | inl none_held ↦ rw (dequeue_empty s on none_held) h
  | inr some_held ↦ elim (List-cases s.eligible_set) [
    | inl e ↦
        let stuck =
          dequeue_select s on some_held ∙ ap (λ (es : List EligibleFlow). select s es) e in
        rw (stuck, select) h
    | inr (next, rest, e) ↦
        let w = subst (IsScheduled s.flow_states) e v in
        let (f, p, ps, found, held) = w.waiting.0 in
        let name = w.named next.flow_id f found in
        let t : HfscScheduler = record s {
          eligible_set = rest;
          total_packets = s.total_packets - 1;
          current_virtual_time = next.virtual_finish_time;
        } in
        let g = served f p.packet_length_bytes ps in
        let apart : All (Differs f.flow_id) rest = rw name w.ordered.1 in
        let behind = (subst (All (HasTime s.flow_states)) e h).1 in
        rw (dequeue_first s next rest f p ps on some_held e found held) (
          subst (λ (k : ℕ). IsDated (reschedule t k g ps)) name
            (reschedule-IsDated t g ps apart behind))
  ]
]
