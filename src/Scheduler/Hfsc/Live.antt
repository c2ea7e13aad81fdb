-- ===== src/Scheduler/Hfsc/Live.antt =====
-- Flows that have a curve: each one that holds a packet is in the eligible set.
pub mod Listed
pub mod Methods
use hqts.Base.{
  ℕ, ◌+◌, ◌-◌, ◌^◌, ◌≤◌, ◌<◌, ◌==◌, ◌≡◌, ◌≢◌, refl, sym, ap, subst, ◌∙◌, ◌⊎◌, inl, inr, Bool, true,
  false, max, List, [], ◌∷◌, ◌++◌, All, Option, none, some, null, length, ok, lookup, insert,
  lookup-insert, u64_max, Bool-cases, Option-cases, List-cases, if◌then◌else◌, ltb, leb, arith,
}
use hqts.Packet.{PacketDescriptor}
use hqts.Scheduler.Hfsc.Timing.{
  ServiceCurve, by_curve, HfscFlowState, choose, service_time, limit, plan_alone, delay_by, plan,
}
use hqts.Scheduler.Hfsc.Clock.{
  IsCalm, CalmParent, IsTimely, service_le, choose-IsTimely, plan_alone-IsTimely, never,
}
use hqts.Scheduler.Hfsc.Flows.{AllFlows, insert-AllFlows}
use hqts.Scheduler.Hfsc.Eligible.{Flows, IsScheduled, Waits}
use hqts.Scheduler.Hfsc.{
  HfscScheduler, EligibleFlow, greater, push, parent_of, enrol, schedule_head, enqueue_in, enqueue,
  is_empty, reschedule, served, select, dequeue,
}

-- A real-time or a link-share curve.
abbrev pub HasCurve : HfscFlowState → Type 0
HasCurve f = (0 < f.real_time_sc.rate_bps) ⊎ (0 < f.link_share_sc.rate_bps)

-- The set has an entry of flow `id`.
abbrev pub Enrolled : ℕ → List EligibleFlow → Type 0
Enrolled id [] = ⊥
Enrolled id (e ∷ es) = (e.flow_id ≡ id) ⊎ Enrolled id es

pub push_new : (e : EligibleFlow) (xs : List EligibleFlow) → Enrolled e.flow_id (push e xs)
unfolding push
push_new e [] = inl refl
push_new e (x ∷ xs) = elim (Bool-cases (greater e x)) [
  | inl g ↦ rw g (inr (push_new e xs))
  | inr g ↦ rw g (inl refl)
]

pub push_old :
    (e : EligibleFlow) (xs : List EligibleFlow) (id : ℕ) → Enrolled id xs → Enrolled id (push e xs)
unfolding push
push_old e [] id h = elim h [ ]
push_old e (x ∷ xs) id h = elim (Bool-cases (greater e x)) [
  | inr g ↦ rw g (inr h)
  | inl g ↦ rw g (elim h [ inl same ↦ inl same | inr k ↦ inr (push_old e xs id k) ])
]

by_curve_le :
    (base len : ℕ) (sc : ServiceCurve)
    → base ≤ 2 ^ 62
    → sc.delay_us ≤ 2 ^ 60
    → len < 2 ^ 32
    → 0 < sc.rate_bps
    → (by_curve base len sc).1 ≤ 2 ^ 63
unfolding by_curve
by_curve_le base len sc b d l h = omega (arith, service_le len sc l h)

-- A curve gives a finish time.
choose_ends :
    (base len : ℕ) (f : HfscFlowState)
    → base ≤ 2 ^ 62
    → IsCalm f
    → len < 2 ^ 32
    → HasCurve f
    → (choose base len f).1 ≢ u64_max
unfolding choose
choose_ends base len f b v l c e =
    let x =
      λ (h : 0 < f.real_time_sc.rate_bps). by_curve_le base len f.real_time_sc b v.real_time l h in
    let y = λ (h : 0 < f.link_share_sc.rate_bps).
      by_curve_le base len f.link_share_sc b v.link_share l h in
    ground arith

pub plan_alone_ends :
    (base len : ℕ) (f : HfscFlowState)
    → base ≤ 2 ^ 62
    → IsCalm f
    → len < 2 ^ 32
    → HasCurve f
    → (plan_alone base len f).1 ≢ u64_max
unfolding plan_alone
plan_alone_ends base len f b v l c e =
    choose_ends base len f b v l c
      (never base f (choose base len f) b v (choose-IsTimely base len f b v l) e)

delay_by_ends :
    (base parent_eligible : ℕ) (times own : ℕ × ℕ)
    → IsTimely base times
    → IsTimely base own
    → own.1 ≢ u64_max
    → parent_eligible ≤ 2 ^ 62 + 2 ^ 60
    → (delay_by times (service_time own) parent_eligible).1 ≢ u64_max
unfolding delay_by service_time
delay_by_ends base parent_eligible (eligible, vft) (el, fin) t o h k e =
    let w = t.bound in let y = o.bound in let z = o.order in ground arith

pub plan_ends :
    (now base len : ℕ) (parent : Option HfscFlowState) (f : HfscFlowState)
    → now ≤ 2 ^ 62
    → base ≤ 2 ^ 62
    → CalmParent parent
    → IsCalm f
    → len < 2 ^ 32
    → HasCurve f
    → (plan now parent f base len).1 ≢ u64_max
unfolding plan
plan_ends now base len none f n b calm v l c = plan_alone_ends base len f b v l c
plan_ends now base len (some parent) f n b calm v l c =
    let base' = max now parent.virtual_finish_time in
    let finish = calm.finish in
    let far : base' ≤ 2 ^ 62 = ground arith in
    delay_by_ends base (plan_alone base' len parent).0 (plan_alone base len f) (choose base len f)
      (plan_alone-IsTimely base len f b v l) (choose-IsTimely base len f b v l)
      (choose_ends base len f b v l c) (plan_alone-IsTimely base' len parent far calm l).bound
