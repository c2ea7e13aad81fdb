-- ===== src/Scheduler/Hfsc/Contract.antt =====
-- The HFSC scheduler as a bag of packets, and the contract of `SchedulerInterface`.
use mathlib.Core.List.{Perm}
use hqts.Scheduler.Hfsc.Timing.{HfscFlowState}
use hqts.Base.{
  ◌+◌, ◌-◌, ◌++◌, [], Bool, Result, none, some, out_of_range, ◌≡◌, refl, ap, ◌∙◌, ◌⊎◌, logic_error,
  inl, inr, true, false, List, ◌∷◌, null, length, All, ok, err, lookup, Bool-cases, Option-cases,
  List-cases, subst, arith,
}
use hqts.Packet.{PacketDescriptor}
use hqts.Scheduler.Bank.{length-Perm}
use hqts.Scheduler.Interface.{Scheduler, IsScheduler, AddsIf, TakesOrFails}
use hqts.Scheduler.Hfsc.Eligible.{IsScheduled, Waits}
use hqts.Scheduler.Hfsc.Enqueue.{enqueue_unknown, enqueue_known, enqueue-IsScheduled}
use hqts.Scheduler.Hfsc.Dequeue.{dequeue_first, dequeue_select, dequeue_empty, dequeue-IsScheduled}
use hqts.Scheduler.Hfsc.{HfscScheduler, EligibleFlow, enqueue, is_empty, served, select, dequeue}
use hqts.Scheduler.Hfsc.Bag.{packets, enqueue_in-packets, enqueue_in-queue, reschedule-packets}

pub record IsAccounted (s : HfscScheduler) : Type 0 where
  pub configured : s.is_configured ≡ true
  pub scheduled : IsScheduled s.flow_states s.eligible_set
  pub total : s.total_packets ≡ length (packets s)

-- What `enqueue` of a packet makes of the flow that the packet's priority names, and returns: the
-- packet is the last of that flow's queue; or there is no such flow, and nothing changes.
abbrev pub Files : HfscScheduler → PacketDescriptor → HfscScheduler × Result (Unit {0}) → Type 0
Files s p (t, r) =
    ((lookup p.priority s.flow_states ≡ none) × (t ≡ s) × (r ≡ err out_of_range))
    ⊎ ((f : HfscFlowState) × (g : HfscFlowState) × (lookup p.priority s.flow_states ≡ some f)
        × (lookup p.priority t.flow_states ≡ some g)
        × (g.packet_queue ≡ f.packet_queue ++ p ∷ [])
        × (t.total_packets ≡ s.total_packets + 1)
        × (r ≡ ok tt))

-- Whether `enqueue` stores the packet: its priority is the id of a flow.
pub stores : HfscScheduler → PacketDescriptor → Bool
stores s p = elim (lookup p.priority s.flow_states) [ none ↦ false | some f ↦ true ]

stores_unknown :
    (s : HfscScheduler) (p : PacketDescriptor)
    → lookup p.priority s.flow_states ≡ none
    → stores s p ≡ false
unfolding stores
stores_unknown s p e = rw (e, stores) refl

stores_known :
    (s : HfscScheduler) (p : PacketDescriptor) (f : HfscFlowState)
    → lookup p.priority s.flow_states ≡ some f
    → stores s p ≡ true
unfolding stores
stores_known s p f e = rw (e, stores) refl

-- On a scheduler whose configured flows and count are right: where the packet's priority names a
-- configured flow, `enqueue` returns without an exception, the packet is then the last of that
-- flow's queue and one more of those held, and the count is one higher; where it names none,
-- `enqueue` throws `out_of_range` and nothing changes. In both cases flows and count stay right.
pub enqueue-IsAccounted :
    (s : HfscScheduler) (p : PacketDescriptor)
    → IsAccounted s
    → IsAccounted (enqueue s p).0
      × Files s p (enqueue s p)
      × AddsIf (stores s p) (packets s) p (packets (enqueue s p).0)
enqueue-IsAccounted s p v = elim (Option-cases (lookup p.priority s.flow_states)) [
  | inl e ↦
      rw (enqueue_unknown s p v.configured e)
        (v, inl (e, refl, refl), rw (AddsIf, stores_unknown s p e) refl)
  | inr (f, e) ↦
      let (perm, count, on, returns) = enqueue_in-packets s p.priority p f e in
      let (g, there, last) = enqueue_in-queue s p.priority p f e in
      let order = enqueue-IsScheduled s p v.scheduled in
      let step = enqueue_known s p f v.configured e in
      rw step (
        record {
          configured = on ∙ v.configured;
          scheduled = rw step at order;
          total = omega (arith, v.total, count, length-Perm perm);
        },
        inr (f, g, e, there, last, count, returns),
        rw (AddsIf, stores_known s p f e) perm,
      )
]

-- Of a scheduler that holds a packet: it sends a packet that it held, or no flow is eligible.
dequeue-packets :
    (s : HfscScheduler)
    → IsAccounted s
    → is_empty s ≡ false
    → (dequeue s ≡ (s, err logic_error))
      ⊎ ((p : PacketDescriptor) × ((dequeue s).1 ≡ ok p)
          × Perm (packets s) (p ∷ packets (dequeue s).0)
          × ((dequeue s).0.total_packets ≡ s.total_packets - 1)
          × ((dequeue s).0.is_configured ≡ s.is_configured))
unfolding select served
dequeue-packets s v some_held = elim (List-cases s.eligible_set) [
  | inl e ↦
      inl (dequeue_select s v.configured some_held ∙ ap (λ (es : List EligibleFlow). select s es) e)
  | inr (next, rest, e) ↦
      let (f, p, ps, found, held) = (subst (All (Waits s.flow_states)) e v.scheduled.waiting).0 in
      let t : HfscScheduler = record s {
        eligible_set = rest;
        total_packets = s.total_packets - 1;
        current_virtual_time = next.virtual_finish_time;
      } in
      let (perm, count, on) =
        reschedule-packets t next.flow_id f (served f p.packet_length_bytes ps) p ps found held
          refl in
      rw (dequeue_first s next rest f p ps v.configured some_held e found held)
        (inr (p, refl, perm, count, on))
]

-- On a scheduler whose configured flows and count are right, `dequeue` keeps them right; it takes
-- one packet from those held, and the packet that it takes is the one that it returns, or it throws
-- and keeps them all.
pub dequeue-IsAccounted :
    (s : HfscScheduler)
    → IsAccounted s
    → IsAccounted (dequeue s).0 × TakesOrFails (packets s) (dequeue s).1 (packets (dequeue s).0)
dequeue-IsAccounted s v = elim (Bool-cases (is_empty s)) [
  | inl e ↦ rw (dequeue_empty s v.configured e) (v, refl)
  | inr e ↦ elim (dequeue-packets s v e) [
    | inl stuck ↦ rw stuck (v, refl)
    | inr (p, sent, perm, count, on) ↦ (
      record {
        configured = on ∙ v.configured;
        scheduled = dequeue-IsScheduled s v.scheduled;
        total = omega (arith, v.total, count, length-Perm perm);
      },
      rw sent perm,
    )
  ]
]

pub is_empty-packets : (s : HfscScheduler) → IsAccounted s → is_empty s ≡ null (packets s)
unfolding is_empty
is_empty-packets s v = elim (List-cases (packets s)) [
  | inl e ↦ ground (arith, v.total, v.configured, e)
  | inr (p, ps, e) ↦ ground (arith, v.total, v.configured, e)
]

instance abbrev pub hfsc : Scheduler HfscScheduler
hfsc = record { enqueue = enqueue; dequeue = dequeue; is_empty = λ s. ok (is_empty s) }

-- The HFSC scheduler meets the contract of the interface.
unfoldable pub hfsc-IsScheduler : IsScheduler HfscScheduler
hfsc-IsScheduler = record {
  Inv = IsAccounted;
  packets = packets;
  stores = stores;
  enqueue-Inv = λ s p v. (enqueue-IsAccounted s p v).0;
  dequeue-Inv = λ s v. (dequeue-IsAccounted s v).0;
  is_empty_lem = λ s v. ap ok (is_empty-packets s v);
  packets-enqueue = λ s p v. (enqueue-IsAccounted s p v).2;
  packets-dequeue = λ s v. (dequeue-IsAccounted s v).1;
}
