-- ===== src/Tests/Clocks.antt =====
-- The times of the hierarchical fair service curve scheduler, and its liveness.
use hqts.Base.{inl, inr, subst, ◌≤◌, ◌≡◌, refl, [], ◌∷◌, ok, lookup, arith}
use hqts.Packet.{PacketDescriptor}
use hqts.Scheduler.Hfsc.{enqueue, dequeue, is_empty}
use hqts.Scheduler.Hfsc.Reschedule.{stored, dequeue_others}
use hqts.Scheduler.Hfsc.Live.Methods.{IsReady, Listed, enqueue-Listed, dequeue-Listed}
use hqts.Scheduler.Hfsc.Flows.{AllFlows}
use hqts.Scheduler.Hfsc.Clock.{IsCalm}
use hqts.Scheduler.Hfsc.Clock.Ahead.{AllCalm, Ahead}
use hqts.Scheduler.Hfsc.Clock.Forward.{dequeue-Ahead}
use native.Mathlib.Decide.{ℕ_discrete}
use hqts.Tests.{packet_to}
use hqts.Tests.Curves.{curve, fast, slow, two_flows, two_flows-IsScheduled, two_flows-IsAccounted}

fast-IsCalm : IsCalm fast
fast-IsCalm = record {
  real_time = omega arith;
  link_share = omega arith;
  upper_limit = omega arith;
  start = omega arith;
  finish = omega arith;
  finish_ul = omega arith;
  lengths = (omega arith, (omega arith, tt));
}

slow-IsCalm : IsCalm slow
slow-IsCalm = record {
  real_time = omega arith;
  link_share = omega arith;
  upper_limit = omega arith;
  start = omega arith;
  finish = omega arith;
  finish_ul = omega arith;
  lengths = (omega arith, tt);
}

two_flows-AllCalm : AllCalm two_flows.flow_states
unfolding lookup
two_flows-AllCalm k f e = elim (ℕ_discrete 1 k) [
  | yes one ↦ let same : fast ≡ f = grind (arith, e) in subst IsCalm same fast-IsCalm
  | no ne ↦ let same : slow ≡ f = grind (arith, e) in subst IsCalm same slow-IsCalm
]

dequeue-Ahead_example :
    (two_flows.current_virtual_time ≤ (dequeue two_flows).0.current_virtual_time)
    × Ahead (dequeue two_flows).0.current_virtual_time (dequeue two_flows).0.eligible_set
dequeue-Ahead_example =
    dequeue-Ahead two_flows two_flows-IsScheduled two_flows-AllCalm (omega arith, (omega arith, tt))
      (omega arith, (omega arith, tt))

two_flows-Listed : Listed two_flows
unfolding lookup
two_flows-Listed = record {
  unique = (refl, (refl, tt));
  listed = λ k f p ps found held. elim (ℕ_discrete 1 k) [
    | yes one ↦ inl one
    | no ne ↦ inr (inl (grind (arith, found)))
  ];
}

two_flows-IsReady : AllFlows IsReady two_flows.flow_states
unfolding lookup
two_flows-IsReady k f e = (two_flows-AllCalm k f e, inl (grind (arith, e)))

enqueue-Listed_example : Listed (enqueue two_flows (packet_to 2 100)).0
enqueue-Listed_example =
    enqueue-Listed two_flows (packet_to 2 100) two_flows-IsAccounted (omega arith) two_flows-IsReady
      (omega arith) two_flows-Listed

dequeue-Listed_example :
    ((p : PacketDescriptor) × ((dequeue two_flows).1 ≡ ok p)) × Listed (dequeue two_flows).0
unfolding is_empty
dequeue-Listed_example =
    dequeue-Listed two_flows two_flows-IsAccounted two_flows-IsReady
      (omega arith, (omega arith, tt)) two_flows-Listed refl

dequeue_others_example :
    let changed = dequeue (stored two_flows 2 (record slow { link_share_sc = curve 5 })) in
    (changed.1 ≡ (dequeue two_flows).1)
    × (changed.0.eligible_set ≡ (dequeue two_flows).0.eligible_set)
unfolding is_empty lookup
dequeue_others_example =
    dequeue_others two_flows (record { virtual_finish_time = 300; flow_id = 1 })
      (record { virtual_finish_time = 4000; flow_id = 2 } ∷ []) fast (packet_to 1 300)
      (packet_to 1 200 ∷ []) 2 (record slow { link_share_sc = curve 5 }) refl refl refl refl refl
      (λ e. ground (arith, e))
