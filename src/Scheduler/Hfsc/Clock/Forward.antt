-- ===== src/Scheduler/Hfsc/Clock/Forward.antt =====
-- `dequeue` of the HFSC scheduler, its virtual time and the finish times of the eligible set.
use hqts.Base.{
  ℕ, ◌-◌, ◌^◌, ◌≤◌, ◌<◌, ◌==◌, ◌≡◌, refl, ap, subst, ◌∙◌, inl, inr, true, false, List, [], ◌∷◌, All,
  All-mono, u64_max, Bool-cases, List-cases, ltb, arith,
}
use hqts.Packet.{PacketDescriptor}
use hqts.Scheduler.Hfsc.Timing.{HfscFlowState, plan_alone}
use hqts.Scheduler.Hfsc.Clock.{IsCalm, service_le, plan_alone-IsTimely}
use hqts.Scheduler.Hfsc.Eligible.{IsScheduled, All-push, Waits, Ordered}
use hqts.Scheduler.Hfsc.Dequeue.{dequeue_off, dequeue_empty, dequeue_select, dequeue_first}
use hqts.Scheduler.Hfsc.{
  HfscScheduler, EligibleFlow, greater, is_empty, reschedule, served, select, dequeue,
}
use hqts.Scheduler.Hfsc.Clock.Ahead.{AllCalm, Ahead}

pub served-IsCalm :
    (f : HfscFlowState) (p : PacketDescriptor) (ps : List PacketDescriptor)
    → IsCalm f
    → f.packet_queue ≡ p ∷ ps
    → IsCalm (served f p.packet_length_bytes ps)
unfolding served
served-IsCalm f p ps c held =
    let (l, ls) =
      subst (All (λ (x : PacketDescriptor). x.packet_length_bytes < 2 ^ 32)) held c.lengths in
    record {
      real_time = c.real_time;
      link_share = c.link_share;
      upper_limit = c.upper_limit;
      start = c.start;
      finish = c.finish;
      finish_ul = elim (Bool-cases (ltb 0 f.upper_limit_sc.rate_bps)) [
        | inl e ↦
            let time = service_le p.packet_length_bytes f.upper_limit_sc l (ground arith) in
            let start = c.start in rw e (omega arith)
        | inr e ↦ rw e c.finish_ul
      ];
      lengths = ls;
    }

served_lengths :
    (f : HfscFlowState) (p : PacketDescriptor) (ps : List PacketDescriptor)
    → IsCalm (served f p.packet_length_bytes ps)
    → All (λ (x : PacketDescriptor). x.packet_length_bytes < 2 ^ 32) ps
unfolding served
served_lengths f p ps c = c.lengths

reschedule-Ahead :
    (s : HfscScheduler) (id : ℕ) (f : HfscFlowState) (ps : List PacketDescriptor)
    → s.current_virtual_time ≤ 2 ^ 62
    → IsCalm f
    → All (λ (p : PacketDescriptor). p.packet_length_bytes < 2 ^ 32) ps
    → Ahead s.current_virtual_time s.eligible_set
    → let t = reschedule s id f ps in
      Ahead s.current_virtual_time t.eligible_set
      × (t.current_virtual_time ≡ s.current_virtual_time)
unfolding reschedule
reschedule-Ahead s id f [] now c l h = (h, refl)
reschedule-Ahead s id f (p ∷ ps) now c (l, ls) h =
    let times = plan_alone s.current_virtual_time p.packet_length_bytes f in
    let t = plan_alone-IsTimely s.current_virtual_time p.packet_length_bytes f now c l in
    elim (Bool-cases (times.1 == u64_max)) [
      | inl e ↦ rw e (h, refl)
      | inr e ↦
          let o = t.order in
          rw e (
            All-push (λ x. s.current_virtual_time ≤ x.virtual_finish_time) _ s.eligible_set
                (ground arith) h,
            refl,
          )
    ]

later :
    (next : EligibleFlow) (rest : List EligibleFlow)
    → All (λ x. greater next x ≡ false) rest
    → Ahead next.virtual_finish_time rest
unfolding greater
later next rest h = All-mono _ _ rest (λ x l. ground arith) h

-- What `dequeue` does to the times where the first entry is `next`.
dequeue_next :
    (s : HfscScheduler) (next : EligibleFlow) (rest : List EligibleFlow)
    → s.is_configured ≡ true
    → is_empty s ≡ false
    → s.eligible_set ≡ next ∷ rest
    → IsScheduled s.flow_states s.eligible_set
    → AllCalm s.flow_states
    → next.virtual_finish_time ≤ 2 ^ 62
    → ((dequeue s).0.current_virtual_time ≡ next.virtual_finish_time)
      × Ahead next.virtual_finish_time (dequeue s).0.eligible_set
dequeue_next s next rest on some_held e v calm soon =
    let (f, p, ps, found, held) = (subst (All (Waits s.flow_states)) e v.waiting).0 in
    let (least, _, _) = subst Ordered e v.ordered in
    let c = served-IsCalm f p ps (calm next.flow_id f found) held in
    let t : HfscScheduler = record s {
      eligible_set = rest;
      total_packets = s.total_packets - 1;
      current_virtual_time = next.virtual_finish_time;
    } in
    let (ahead, same) =
      reschedule-Ahead t next.flow_id (served f p.packet_length_bytes ps) ps soon c
        (served_lengths f p ps c) (later next rest least) in
    rw (dequeue_first s next rest f p ps on some_held e found held) (same, ahead)

-- While the finish times of the eligible set and the times and delays of all flows stay far below
-- 2 ^ 64, from a scheduler whose eligible set is in order and at the virtual time or later: `dequeue`
-- does not move the virtual time back, and every finish time of the eligible set is at the new
-- virtual time or later; also where it throws.
pub dequeue-Ahead :
    (s : HfscScheduler)
    → IsScheduled s.flow_states s.eligible_set
    → AllCalm s.flow_states
    → All (λ e. e.virtual_finish_time ≤ 2 ^ 62) s.eligible_set
    → Ahead s.current_virtual_time s.eligible_set
    → (s.current_virtual_time ≤ (dequeue s).0.current_virtual_time)
      × Ahead (dequeue s).0.current_virtual_time (dequeue s).0.eligible_set
unfolding select
dequeue-Ahead s v calm soon h = elim (Bool-cases s.is_configured) [
  | inr off ↦ rw (dequeue_off s off) (omega arith, h)
  | inl on ↦ elim (Bool-cases (is_empty s)) [
    | inl none_held ↦ rw (dequeue_empty s on none_held) (omega arith, h)
    | inr some_held ↦ elim (List-cases s.eligible_set) [
      | inl e ↦
          let stuck =
            dequeue_select s on some_held ∙ ap (λ (es : List EligibleFlow). select s es) e in
          rw stuck (omega arith, h)
      | inr (next, rest, e) ↦
          let (near, _) = subst (All (λ x. x.virtual_finish_time ≤ 2 ^ 62)) e soon in
          let (first, _) = subst (Ahead s.current_virtual_time) e h in
          let (same, ahead) = dequeue_next s next rest on some_held e v calm near in
          (omega arith, rw same ahead)
    ]
  ]
]
