-- ===== src/Scheduler/Hfsc/Live/Methods.antt =====
-- `enqueue` and `dequeue` of the HFSC scheduler where every flow has a curve.
use hqts.Base.{
  ℕ, ◌+◌, ◌-◌, ◌^◌, ◌≤◌, ◌<◌, ◌==◌, ◌≡◌, ◌≢◌, refl, sym, ap, subst, inl, inr, true, false, max,
  List, [], ◌∷◌, ◌++◌, All, some, null, length, ok, lookup, insert, lookup-insert, u64_max,
  Option-cases, List-cases, arith,
}
use hqts.Packet.{PacketDescriptor}
use hqts.Scheduler.Hfsc.Timing.{HfscFlowState, plan_alone}
use hqts.Scheduler.Hfsc.Clock.{IsCalm}
use hqts.Scheduler.Hfsc.Clock.Ahead.{parent_of-CalmParent, queued-IsCalm}
use hqts.Scheduler.Hfsc.Clock.Forward.{served-IsCalm}
use hqts.Scheduler.Hfsc.Flows.{AllFlows, insert-AllFlows}
use hqts.Scheduler.Hfsc.Eligible.{Waits}
use hqts.Scheduler.Hfsc.Enqueue.{enqueue_unknown, enqueue_known, update_known}
use hqts.Scheduler.Hfsc.Dequeue.{dequeue_first}
use hqts.Scheduler.Hfsc.Contract.{IsAccounted}
use hqts.Scheduler.Hfsc.Live.{HasCurve, Enrolled, plan_ends, plan_alone_ends}
use hqts.Scheduler.Hfsc.Live.Listed.{
  IsListed, IsListedBut, packets_of_empty, change, forget, complete, enter, leave,
}
use hqts.Scheduler.Hfsc.{
  HfscScheduler, EligibleFlow, parent_of, enrol, schedule_head, enqueue_in, enqueue, is_empty,
  reschedule, served, dequeue,
}

-- Times and delays far below 2 ^ 64, and a curve.
abbrev pub IsReady : HfscFlowState → Type 0
IsReady f = IsCalm f × HasCurve f

abbrev pub Listed : HfscScheduler → Type 0
Listed s = IsListed s.flow_states s.eligible_set

enrol-Listed :
    (s : HfscScheduler) (id : ℕ) (f : HfscFlowState) (len : ℕ) (times : ℕ × ℕ)
    → times.1 ≢ u64_max
    → IsListedBut id s.flow_states s.eligible_set
    → Listed (enrol s id f len times)
unfolding enrol
enrol-Listed s id f len (eligible, vft) ends v =
    let go_on : (vft == u64_max) ≡ false = ground arith in
    let (w, entry) = enter id vft s.flow_states s.eligible_set v in
    rw go_on (complete id s.flow_states _ _ w (inr entry))

schedule-Listed :
    (s : HfscScheduler) (id : ℕ) (f : HfscFlowState) (p : PacketDescriptor)
    (ps : List PacketDescriptor)
    → s.current_virtual_time ≤ 2 ^ 62
    → AllFlows IsReady s.flow_states
    → IsReady f
    → p.packet_length_bytes < 2 ^ 32
    → IsListedBut id s.flow_states s.eligible_set
    → Listed (schedule_head s id true f (p ∷ ps))
unfolding schedule_head
schedule-Listed s id f p ps now ready (calm, curve) l v =
    let finish = calm.finish in
    let base = max s.current_virtual_time f.virtual_finish_time in
    let high : base ≤ 2 ^ 62 = ground arith in
    enrol-Listed s id f p.packet_length_bytes _
      (plan_ends s.current_virtual_time base p.packet_length_bytes (parent_of s f) f now high
        (parent_of-CalmParent s f (λ k g found. (ready k g found).0)) calm l curve)
      v

enqueue_in-Listed :
    (s : HfscScheduler) (id : ℕ) (p : PacketDescriptor) (f : HfscFlowState)
    → s.current_virtual_time ≤ 2 ^ 62
    → AllFlows IsReady s.flow_states
    → lookup id s.flow_states ≡ some f
    → p.packet_length_bytes < 2 ^ 32
    → Listed s
    → Listed (enqueue_in s id p f).0
unfolding enqueue_in
enqueue_in-Listed s id p f now ready found l v =
    let g : HfscFlowState = record f { packet_queue = f.packet_queue ++ p ∷ [] } in
    let t : HfscScheduler = record s {
      flow_states = insert id g s.flow_states;
      total_packets = s.total_packets + 1;
    } in
    let (calm, curve) = ready id f found in
    let ready_g : IsReady g = (queued-IsCalm f p calm l, curve) in
    let others = forget id s.flow_states s.eligible_set v in
    let there : lookup id t.flow_states ≡ some g =
      ground (arith, lookup-insert id id g s.flow_states) in
    elim (List-cases f.packet_queue) [
      | inl e ↦
          let new : null f.packet_queue ≡ true = ground (arith, e) in
          let one : p ∷ [] ≡ g.packet_queue =
            ap (λ (ps : List PacketDescriptor). ps ++ p ∷ []) (sym e) in
          rw (new, update_known t id true g there)
            (subst (λ (qs : List PacketDescriptor). Listed (schedule_head t id true g qs)) one
              (schedule-Listed t id g p [] now
                (insert-AllFlows IsReady s.flow_states id g ready ready_g) ready_g l
                (change id s.flow_states s.eligible_set g others)))
      | inr (h, hs, e) ↦
          let old : null f.packet_queue ≡ false = ground (arith, e) in
          rw old
            (complete id s.flow_states s.eligible_set g others (inr (v.listed id f h hs found e)))
    ]

-- On a scheduler whose flows and count are right and whose flows each have a curve, and while the
-- virtual time and the times and delays of all flows stay far below 2 ^ 64: `enqueue` of a packet
-- whose length is a `uint32_t` leaves every flow that holds a packet in the eligible set, given that
-- it was so.
pub enqueue-Listed :
    (s : HfscScheduler) (p : PacketDescriptor)
    → IsAccounted s
    → s.current_virtual_time ≤ 2 ^ 62
    → AllFlows IsReady s.flow_states
    → p.packet_length_bytes < 2 ^ 32
    → Listed s
    → Listed (enqueue s p).0
enqueue-Listed s p a now ready l v = elim (Option-cases (lookup p.priority s.flow_states)) [
  | inl e ↦ rw (enqueue_unknown s p a.configured e) v
  | inr (f, e) ↦
      rw (enqueue_known s p f a.configured e) (enqueue_in-Listed s p.priority p f now ready e l v)
]

reschedule-Listed :
    (s : HfscScheduler) (f : HfscFlowState) (ps : List PacketDescriptor)
    → s.current_virtual_time ≤ 2 ^ 62
    → IsReady f
    → f.packet_queue ≡ ps
    → IsListedBut f.flow_id s.flow_states s.eligible_set
    → Listed (reschedule s f.flow_id f ps)
unfolding reschedule
reschedule-Listed s f [] now ready held v =
    complete f.flow_id s.flow_states s.eligible_set f v (inl held)
reschedule-Listed s f (p ∷ ps) now (calm, curve) held v =
    let times = plan_alone s.current_virtual_time p.packet_length_bytes f in
    let (l, _) =
      subst (All (λ (x : PacketDescriptor). x.packet_length_bytes < 2 ^ 32)) held calm.lengths in
    let ends = plan_alone_ends s.current_virtual_time p.packet_length_bytes f now calm l curve in
    let go_on : (times.1 == u64_max) ≡ false = ground arith in
    let (w, entry) = enter f.flow_id times.1 s.flow_states s.eligible_set v in
    rw go_on (complete f.flow_id s.flow_states _ _ w (inr entry))

-- Where a flow holds a packet, the eligible set has an entry.
entry_there :
    (s : HfscScheduler)
    → IsAccounted s
    → Listed s
    → is_empty s ≡ false
    → (next : EligibleFlow) × (rest : List EligibleFlow) × (s.eligible_set ≡ next ∷ rest)
unfolding is_empty
entry_there s a v held = elim (List-cases s.eligible_set) [
  | inr (next, rest, e) ↦ (next, rest, e)
  | inl e ↦
      let all_empty = packets_of_empty s.flow_states v.unique (λ k f found.
        elim (List-cases f.packet_queue) [
          | inl none_here ↦ none_here
          | inr (p, ps, here) ↦
              let entry = subst (Enrolled k) e (v.listed k f p ps found here) in elim entry [ ]
        ]) in
      let on = a.configured in absurd (ground (arith, a.total, ap length all_empty))
]

-- On a scheduler whose flows and count are right, whose flows each have a curve and each have an
-- entry in the eligible set if they hold a packet, and while the times and delays of all flows and
-- the finish times of the eligible set stay far below 2 ^ 64: if it holds a packet, `dequeue`
-- returns one and does not throw, and every flow that then holds a packet has an entry again.
pub dequeue-Listed :
    (s : HfscScheduler)
    → IsAccounted s
    → AllFlows IsReady s.flow_states
    → All (λ e. e.virtual_finish_time ≤ 2 ^ 62) s.eligible_set
    → Listed s
    → is_empty s ≡ false
    → ((p : PacketDescriptor) × ((dequeue s).1 ≡ ok p)) × Listed (dequeue s).0
unfolding served
dequeue-Listed s a ready soon v held =
    let (next, rest, e) = entry_there s a v held in
    let (f, p, ps, found, here) = (subst (All (Waits s.flow_states)) e a.scheduled.waiting).0 in
    let (near, _) = subst (All (λ x. x.virtual_finish_time ≤ 2 ^ 62)) e soon in
    let name : f.flow_id ≡ next.flow_id = a.scheduled.named next.flow_id f found in
    let t : HfscScheduler = record s {
      eligible_set = rest;
      total_packets = s.total_packets - 1;
      current_virtual_time = next.virtual_finish_time;
    } in
    let g = served f p.packet_length_bytes ps in
    let (calm, curve) = ready next.flow_id f found in
    let others = leave next rest s.flow_states (subst (IsListed s.flow_states) e v) in
    let after =
      reschedule-Listed t g ps near (served-IsCalm f p ps calm here, curve) refl
        (subst (λ (k : ℕ). IsListedBut k s.flow_states rest) (sym name) others) in
    rw (dequeue_first s next rest f p ps a.configured held e found here)
      ((p, refl), subst (λ (k : ℕ). Listed (reschedule t k g ps)) name after)
