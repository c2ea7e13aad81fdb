-- ===== src/Scheduler/Hfsc/Least.antt =====
-- Which flow the HFSC scheduler serves, after any calls from its constructor on.
use mathlib.Core.Option.{some-injective}
use hqts.Base.{
  ℕ, ◌<◌, ◌==◌, ◌≡◌, refl, sym, ap, subst, ◌∙◌, ◌⊎◌, inl, inr, false, List, [], ◌∷◌, Option, none,
  some, All, All-mono, Result, ok, err, lookup, u64_max, logic_error, Bool-cases, arith,
}
use hqts.Packet.{PacketDescriptor}
use hqts.Scheduler.Lanes.{run}
use hqts.Scheduler.Hfsc.Timing.{HfscFlowState, plan_alone}
use hqts.Scheduler.Hfsc.Configure.{FlowConfig, hfsc_scheduler}
use hqts.Scheduler.Hfsc.Eligible.{Differs, IsScheduled, All-both}
use hqts.Scheduler.Hfsc.Dequeue.{dequeue_first, dequeue_least}
use hqts.Scheduler.Hfsc.Contract.{IsAccounted, enqueue-IsAccounted, dequeue-IsAccounted, hfsc}
use hqts.Scheduler.Hfsc.Configured.{hfsc_scheduler-IsAccounted}
use hqts.Scheduler.Hfsc.Dated.{HasTime, IsDated, enqueue-IsDated, dequeue-IsDated}
use hqts.Scheduler.Hfsc.{
  HfscScheduler, EligibleFlow, greater, is_empty, reschedule, served, enqueue, dequeue,
}

-- An earlier finish time, or the same one and a lower id.
abbrev pub Before : EligibleFlow → EligibleFlow → Type 0
Before e x =
    (e.virtual_finish_time < x.virtual_finish_time)
    ⊎ ((e.virtual_finish_time ≡ x.virtual_finish_time) × (e.flow_id < x.flow_id))

before : (e x : EligibleFlow) → (greater e x ≡ false) × Differs e.flow_id x → Before e x
unfolding greater
before e x (least, apart) = ground arith

-- `dequeue` sends the first packet of the eligible flow that finishes first, the one with the lowest
-- id of those that finish together, and its finish time becomes the virtual time.
pub record ServesFirst (s : HfscScheduler) : Type 0 where
  pub next : EligibleFlow
  pub rest : List EligibleFlow
  pub flow : HfscFlowState
  pub packet : PacketDescriptor
  pub behind : List PacketDescriptor
  pub eligible : s.eligible_set ≡ next ∷ rest
  pub first : All (Before next) rest
  pub found : lookup next.flow_id s.flow_states ≡ some flow
  pub time : flow.virtual_finish_time ≡ next.virtual_finish_time
  pub times : All (HasTime s.flow_states) rest
  pub waiting : flow.packet_queue ≡ packet ∷ behind
  pub result : (dequeue s).1 ≡ ok packet
  pub clock : (dequeue s).0.current_virtual_time ≡ flow.virtual_finish_time

reschedule-time :
    (s : HfscScheduler) (id : ℕ) (f : HfscFlowState) (ps : List PacketDescriptor)
    → (reschedule s id f ps).current_virtual_time ≡ s.current_virtual_time
unfolding reschedule
reschedule-time s id f [] = refl
reschedule-time s id f (p ∷ ps) =
    elim (Bool-cases ((plan_alone s.current_virtual_time p.packet_length_bytes f).1 == u64_max)) [
      | inl e ↦ rw e refl
      | inr e ↦ rw e refl
    ]

-- What holds after every call.
record IsSound (s : HfscScheduler) : Type 0 where
  accounted : IsAccounted s
  dated : IsDated s

run-IsSound :
    (calls : List (Option PacketDescriptor)) (s : HfscScheduler)
    → IsSound s
    → IsSound (run calls s).0
run-IsSound [] s v = v
run-IsSound (some p ∷ calls) s v = run-IsSound calls (enqueue s p).0 (record {
  accounted = (enqueue-IsAccounted s p v.accounted).0;
  dated = enqueue-IsDated s p v.accounted.configured v.accounted.scheduled v.dated;
})
run-IsSound (none ∷ calls) s v = run-IsSound calls (dequeue s).0 (record {
  accounted = (dequeue-IsAccounted s v.accounted).0;
  dated = dequeue-IsDated s v.accounted.configured v.accounted.scheduled v.dated;
})

IsSound-serves :
    (s : HfscScheduler)
    → is_empty s ≡ false
    → IsSound s
    → ((s.eligible_set ≡ []) × (dequeue s ≡ (s, err logic_error))) ⊎ ServesFirst s
unfolding served
IsSound-serves s held v = elim (dequeue_least s v.accounted.configured held v.accounted.scheduled) [
  | inl stuck ↦ inl stuck
  | inr (next, rest, f, p, ps, e, least, found, waiting, result) ↦
      let w = subst (IsScheduled s.flow_states) e v.accounted.scheduled in
      let dated = subst (All (HasTime s.flow_states)) e v.dated in
      let (g, there, time) = dated.0 in
      let one : g ≡ f = some-injective _ _ (sym there ∙ found) in
      let time' : f.virtual_finish_time ≡ next.virtual_finish_time =
        sym (ap (λ (x : HfscFlowState). x.virtual_finish_time) one) ∙ time in
      let step = dequeue_first s next rest f p ps v.accounted.configured held e found waiting in
      inr (record {
        next = next;
        rest = rest;
        flow = f;
        packet = p;
        behind = ps;
        eligible = e;
        first =
            All-mono (λ x. (greater next x ≡ false) × Differs next.flow_id x) _ rest (before next)
              (All-both _ _ rest least w.ordered.1);
        found = found;
        time = time';
        times = dated.1;
        waiting = waiting;
        result = result;
        clock =
            ap (λ (r : HfscScheduler × Result PacketDescriptor). r.0.current_virtual_time) step
            ∙ reschedule-time _ next.flow_id (served f p.packet_length_bytes ps) ps
            ∙ sym time';
      })
]

-- From what the constructor makes of at least one flow, after any calls of `enqueue` and `dequeue`,
-- where the scheduler holds a packet: either no flow is eligible, and `dequeue` throws the logic
-- error and changes nothing; or `dequeue` returns the first packet of an eligible flow whose virtual
-- finish time is less than that of every other eligible flow, or the same and its id lower, and that
-- time becomes the current virtual time.
pub run_least :
    (fc : FlowConfig) (fcs : List FlowConfig) (bandwidth : ℕ) (s : HfscScheduler)
    (calls : List (Option PacketDescriptor))
    → hfsc_scheduler (fc ∷ fcs) bandwidth ≡ ok s
    → is_empty (run calls s).0 ≡ false
    → (((run calls s).0.eligible_set ≡ [])
        × (dequeue (run calls s).0 ≡ ((run calls s).0, err logic_error)))
      ⊎ ServesFirst (run calls s).0
run_least fc fcs bandwidth s calls e held =
    let (v, none_eligible, _, _) = hfsc_scheduler-IsAccounted fc fcs bandwidth s e in
    let dated : IsDated s = rw none_eligible tt in
    IsSound-serves (run calls s).0 held
      (run-IsSound calls s (record { accounted = v; dated = dated }))
