-- ===== src/Scheduler/Hfsc/Dequeue.antt =====
-- What `dequeue` of the HFSC scheduler sends, and the eligible set after it.
use hqts.Base.{
  runtime_error, ℕ, ◌-◌, ◌==◌, ◌≡◌, refl, ap, subst, ◌∙◌, ◌⊎◌, inl, inr, true, false, List, [], ◌∷◌,
  some, All, Result, ok, err, lookup, Bool-cases, List-cases, u64_max, logic_error, arith,
}
use hqts.Packet.{PacketDescriptor}
use hqts.Scheduler.Hfsc.Timing.{HfscFlowState, plan_alone}
use hqts.Scheduler.Hfsc.Eligible.{
  Waits, Differs, Ordered, IsScheduled, insert-IsScheduled, insert-IsScheduled_absent,
  push-IsScheduled,
}
use hqts.Scheduler.Hfsc.{
  HfscScheduler, EligibleFlow, greater, is_empty, reschedule, served, serve, select, dequeue,
}

reschedule-IsScheduled :
    (s : HfscScheduler) (f : HfscFlowState) (ps : List PacketDescriptor)
    → IsScheduled s.flow_states s.eligible_set
    → f.packet_queue ≡ ps
    → All (Differs f.flow_id) s.eligible_set
    → let t = reschedule s f.flow_id f ps in IsScheduled t.flow_states t.eligible_set
unfolding reschedule
reschedule-IsScheduled s f [] v held apart =
    insert-IsScheduled_absent s.flow_states s.eligible_set f.flow_id f v refl apart
reschedule-IsScheduled s f (p ∷ ps) v held apart =
    let times = plan_alone s.current_virtual_time p.packet_length_bytes f in
    let g : HfscFlowState = record f {
      virtual_start_time = times.0;
      virtual_finish_time = times.1;
    } in
    elim (Bool-cases (times.1 == u64_max)) [
      | inl e ↦ rw e (insert-IsScheduled s.flow_states s.eligible_set f.flow_id f p ps v refl held)
      | inr e ↦
          rw e (
            push-IsScheduled s.flow_states s.eligible_set f.flow_id times.1 g p ps v refl held
              apart)
    ]

serve_held :
    (s : HfscScheduler) (next : EligibleFlow) (f : HfscFlowState) (qs : List PacketDescriptor)
    (p : PacketDescriptor) (ps : List PacketDescriptor)
    → qs ≡ p ∷ ps
    → serve s next f qs ≡ serve s next f (p ∷ ps)
serve_held s next f qs p ps e = ap (λ (x : List PacketDescriptor). serve s next f x) e

select_next :
    (s : HfscScheduler) (next : EligibleFlow) (rest : List EligibleFlow) (f : HfscFlowState)
    → lookup next.flow_id s.flow_states ≡ some f
    → select s (next ∷ rest) ≡ serve (record s { eligible_set = rest }) next f f.packet_queue
unfolding select
select_next s next rest f found = ground (arith, found)

pub dequeue_select :
    (s : HfscScheduler)
    → s.is_configured ≡ true
    → is_empty s ≡ false
    → dequeue s ≡ select s s.eligible_set
unfolding dequeue
dequeue_select s on some_held = ground (arith, on, some_held)

-- What `dequeue` does where the first entry is `next`.
pub dequeue_first :
    (s : HfscScheduler) (next : EligibleFlow) (rest : List EligibleFlow) (f : HfscFlowState)
    (p : PacketDescriptor) (ps : List PacketDescriptor)
    → s.is_configured ≡ true
    → is_empty s ≡ false
    → s.eligible_set ≡ next ∷ rest
    → lookup next.flow_id s.flow_states ≡ some f
    → f.packet_queue ≡ p ∷ ps
    → dequeue s ≡ (
      reschedule
          (record s {
            eligible_set = rest;
            total_packets = s.total_packets - 1;
            current_virtual_time = next.virtual_finish_time;
          })
          next.flow_id
          (served f p.packet_length_bytes ps)
          ps,
      ok p,
    )
unfolding serve
dequeue_first s next rest f p ps on some_held e found held =
    dequeue_select s on some_held
    ∙ ap (λ (es : List EligibleFlow). select s es) e
    ∙ select_next s next rest f found
    ∙ serve_held (record s { eligible_set = rest }) next f f.packet_queue p ps held

-- From a configured scheduler that holds a packet, with an eligible set that is in order and names
-- only flows with a packet: either the eligible set is empty, and `dequeue` throws the logic error
-- and changes nothing; or the flow of its first entry is configured and holds a packet, the first
-- entry is not greater than any other by finish time and id, and `dequeue` returns the first packet
-- of that flow.
pub dequeue_least :
    (s : HfscScheduler)
    → s.is_configured ≡ true
    → is_empty s ≡ false
    → IsScheduled s.flow_states s.eligible_set
    → ((s.eligible_set ≡ []) × (dequeue s ≡ (s, err logic_error)))
      ⊎ ((next : EligibleFlow) × (rest : List EligibleFlow) × (f : HfscFlowState)
          × (p : PacketDescriptor) × (ps : List PacketDescriptor) × (s.eligible_set ≡ next ∷ rest)
          × All (λ x. greater next x ≡ false) rest
          × (lookup next.flow_id s.flow_states ≡ some f)
          × (f.packet_queue ≡ p ∷ ps)
          × ((dequeue s).1 ≡ ok p))
unfolding select
dequeue_least s on some_held v = elim (List-cases s.eligible_set) [
  | inl e ↦ inl (e, dequeue_select s on some_held ∙ ap (λ (es : List EligibleFlow). select s es) e)
  | inr (next, rest, e) ↦
      let w = subst (All (Waits s.flow_states)) e v.waiting in
      let o = subst Ordered e v.ordered in
      let (f, p, ps, found, held) = w.0 in
      inr (
        next,
        rest,
        f,
        p,
        ps,
        e,
        o.0,
        found,
        held,
        ap (λ (r : HfscScheduler × Result PacketDescriptor). r.1)
            (dequeue_first s next rest f p ps on some_held e found held),
      )
]

pub dequeue_off : (s : HfscScheduler) → s.is_configured ≡ false → dequeue s ≡ (s, err logic_error)
unfolding dequeue
dequeue_off s e = ground (arith, e)

pub dequeue_empty :
    (s : HfscScheduler)
    → s.is_configured ≡ true
    → is_empty s ≡ true
    → dequeue s ≡ (s, err runtime_error)
unfolding dequeue
dequeue_empty s on e = ground (arith, on, e)

dequeue_first-IsScheduled :
    (s : HfscScheduler) (next : EligibleFlow) (rest : List EligibleFlow)
    → s.is_configured ≡ true
    → is_empty s ≡ false
    → IsScheduled s.flow_states (next ∷ rest)
    → s.eligible_set ≡ next ∷ rest
    → IsScheduled (dequeue s).0.flow_states (dequeue s).0.eligible_set
unfolding served
dequeue_first-IsScheduled s next rest on some_held v e =
    let (f, p, ps, found, held) = v.waiting.0 in
    let name = v.named next.flow_id f found in
    let t : HfscScheduler = record s {
      eligible_set = rest;
      total_packets = s.total_packets - 1;
      current_virtual_time = next.virtual_finish_time;
    } in
    let g = served f p.packet_length_bytes ps in
    let behind : IsScheduled s.flow_states rest = record {
      named = v.named;
      waiting = v.waiting.1;
      ordered = v.ordered.2;
    } in
    let apart : All (Differs f.flow_id) rest = rw name (v.ordered.1) in
    rw (dequeue_first s next rest f p ps on some_held e found held) (
      subst
        (λ (k : ℕ).
          IsScheduled (reschedule t k g ps).flow_states (reschedule t k g ps).eligible_set)
        name (reschedule-IsScheduled t g ps behind refl apart))

-- `dequeue` keeps each flow under its own id and the eligible set in order, with each flow once at
-- most and only flows that hold a packet, given that they were; also where it throws.
pub dequeue-IsScheduled :
    (s : HfscScheduler)
    → IsScheduled s.flow_states s.eligible_set
    → IsScheduled (dequeue s).0.flow_states (dequeue s).0.eligible_set
unfolding select
dequeue-IsScheduled s v = elim (Bool-cases s.is_configured) [
  | inr off ↦ rw (dequeue_off s off) v
  | inl on ↦ elim (Bool-cases (is_empty s)) [
    | inl none_held ↦ rw (dequeue_empty s on none_held) v
    | inr some_held ↦ elim (List-cases s.eligible_set) [
      | inl e ↦
          let stuck =
            dequeue_select s on some_held ∙ ap (λ (es : List EligibleFlow). select s es) e in
          rw (stuck, select) v
      | inr (next, rest, e) ↦
          dequeue_first-IsScheduled s next rest on some_held (subst (IsScheduled s.flow_states) e v)
            e
    ]
  ]
]
