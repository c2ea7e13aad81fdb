-- ===== src/Scheduler/Hfsc/Clock.antt =====
-- The times that the HFSC scheduler plans, where none of them comes near 2 ^ 64.
pub mod Ahead
pub mod Forward
use native.Mathlib.Nat.{div-le_self}
use hqts.Base.{
  ltb, leb, if◌then◌else◌, Bool, true, false, ◌%◌, ◌*◌, ℕ, ◌+◌, ◌-◌, ◌^◌, ◌/◌, ◌≤◌, ◌<◌, ◌==◌, ◌≡◌,
  refl, ◌⊎◌, inl, inr, max, List, All, Option, none, some, u64_max, Bool-cases, arith,
}
use hqts.Packet.{PacketDescriptor}
use hqts.Scheduler.Hfsc.Timing.{
  ServiceCurve, HfscFlowState, calculate_packet_service_time_us, by_curve, choose, service_time,
  limit, plan_alone, delay_by, plan,
}

-- Delays and times of a flow that stay well below 2 ^ 64, and lengths that are `uint32_t`.
pub record IsCalm (f : HfscFlowState) : Type 0 where
  pub real_time : f.real_time_sc.delay_us ≤ 2 ^ 60
  pub link_share : f.link_share_sc.delay_us ≤ 2 ^ 60
  pub upper_limit : f.upper_limit_sc.delay_us ≤ 2 ^ 60
  pub start : f.virtual_start_time ≤ 2 ^ 61
  pub finish : f.virtual_finish_time ≤ 2 ^ 62
  pub finish_ul : f.virtual_finish_time_ul ≤ 2 ^ 62
  pub lengths : All (λ (p : PacketDescriptor). p.packet_length_bytes < 2 ^ 32) f.packet_queue

-- Times of a plan from `base` on: the flow never finishes, or it starts at `base` at the earliest
-- and finishes soon after.
pub record IsTimely (base : ℕ) (times : ℕ × ℕ) : Type 0 where
  pub bound : times.0 ≤ 2 ^ 62 + 2 ^ 60
  pub order :
      (times.1 ≡ u64_max) ⊎ ((base ≤ times.0) × (times.0 ≤ times.1) × (times.1 ≤ times.0 + 2 ^ 55))

pub service_le :
    (len : ℕ) (sc : ServiceCurve)
    → len < 2 ^ 32
    → 0 < sc.rate_bps
    → calculate_packet_service_time_us len sc ≤ 2 ^ 55
unfolding calculate_packet_service_time_us
service_le len sc l h =
    let x = (len * 8 % 2 ^ 64) * 1_000_000 % 2 ^ 64 in
    let bits : len * 8 % 2 ^ 64 * 1_000_000 % 2 ^ 64 ≤ 2 ^ 55 = omega arith in
    let whole = div-le_self x sc.rate_bps in
    elim (Bool-cases (sc.rate_bps == 0)) [
      | inl e ↦ absurd (ground arith)
      | inr e ↦ rw e (omega arith)
    ]

pub by_curve-IsTimely :
    (base len : ℕ) (sc : ServiceCurve)
    → base ≤ 2 ^ 62
    → sc.delay_us ≤ 2 ^ 60
    → len < 2 ^ 32
    → 0 < sc.rate_bps
    → IsTimely base (by_curve base len sc)
unfolding by_curve
by_curve-IsTimely base len sc b d l h =
    let s = service_le len sc l h in
    record { bound = omega arith; order = inr (omega arith, omega arith, omega arith) }

either :
    {base : ℕ} {x y : ℕ × ℕ} (b : Bool)
    → IsTimely base x
    → IsTimely base y
    → IsTimely base (if b then x else y)
either true h k = h
either false h k = k

pub choose-IsTimely :
    (base len : ℕ) (f : HfscFlowState)
    → base ≤ 2 ^ 62
    → IsCalm f
    → len < 2 ^ 32
    → IsTimely base (choose base len f)
unfolding choose
choose-IsTimely base len f b v l = elim (Bool-cases (ltb 0 f.real_time_sc.rate_bps)) [
  | inl rt ↦
      let one = by_curve-IsTimely base len f.real_time_sc b v.real_time l (ground arith) in
      elim (Bool-cases (ltb 0 f.link_share_sc.rate_bps)) [
        | inl ls ↦
            let two = by_curve-IsTimely base len f.link_share_sc b v.link_share l (ground arith) in
            rw (rt, ls)
              (either
                (leb (by_curve base len f.real_time_sc).1 (by_curve base len f.link_share_sc).1) one
                two)
        | inr ls ↦ rw (rt, ls) one
      ]
  | inr rt ↦ elim (Bool-cases (ltb 0 f.link_share_sc.rate_bps)) [
    | inl ls ↦
        rw (rt, ls) (by_curve-IsTimely base len f.link_share_sc b v.link_share l (ground arith))
    | inr ls ↦ rw (rt, ls) (record { bound = omega arith; order = inl refl })
  ]
]

limit-IsTimely :
    (base : ℕ) (f : HfscFlowState) (times : ℕ × ℕ)
    → base ≤ 2 ^ 62
    → IsCalm f
    → IsTimely base times
    → IsTimely base (limit base f times)
unfolding limit service_time
limit-IsTimely base f (eligible, vft) b v t =
    let d = v.upper_limit in
    let u = v.finish_ul in
    let o = t.order in
    let w = t.bound in
    elim (Bool-cases (ltb 0 f.upper_limit_sc.rate_bps)) [
      | inr e ↦ rw e t
      | inl e ↦ rw e (record { bound = ground arith; order = ground arith })
    ]

-- An upper limit does not make a plan endless.
pub never :
    (base : ℕ) (f : HfscFlowState) (times : ℕ × ℕ)
    → base ≤ 2 ^ 62
    → IsCalm f
    → IsTimely base times
    → (limit base f times).1 ≡ u64_max
    → times.1 ≡ u64_max
unfolding limit service_time
never base f (eligible, vft) b v t e =
    let d = v.upper_limit in
    let u = v.finish_ul in
    let o = t.order in
    let w = t.bound in
    elim (Bool-cases (ltb 0 f.upper_limit_sc.rate_bps)) [
      | inr k ↦ rw k at e
      | inl k ↦ let e' = rw k at e in ground arith
    ]

pub plan_alone-IsTimely :
    (base len : ℕ) (f : HfscFlowState)
    → base ≤ 2 ^ 62
    → IsCalm f
    → len < 2 ^ 32
    → IsTimely base (plan_alone base len f)
unfolding plan_alone
plan_alone-IsTimely base len f b v l =
    limit-IsTimely base f (choose base len f) b v (choose-IsTimely base len f b v l)

delay_by-IsTimely :
    (base parent_eligible : ℕ) (times own : ℕ × ℕ)
    → IsTimely base times
    → IsTimely base own
    → parent_eligible ≤ 2 ^ 62 + 2 ^ 60
    → (times.1 ≡ u64_max → own.1 ≡ u64_max)
    → IsTimely base (delay_by times (service_time own) parent_eligible)
unfolding delay_by service_time
delay_by-IsTimely base parent_eligible (eligible, vft) (el, fin) t o h both =
    let w = t.bound in
    let x = t.order in
    let y = o.bound in let z = o.order in record { bound = ground arith; order = ground arith }

-- The parent, if the flow has one.
abbrev pub CalmParent : Option HfscFlowState → Type 0
CalmParent none = Unit
CalmParent (some parent) = IsCalm parent

pub plan-IsTimely :
    (now base len : ℕ) (parent : Option HfscFlowState) (f : HfscFlowState)
    → now ≤ 2 ^ 62
    → base ≤ 2 ^ 62
    → CalmParent parent
    → IsCalm f
    → len < 2 ^ 32
    → IsTimely base (plan now parent f base len)
unfolding plan plan_alone
plan-IsTimely now base len none f n b calm v l = plan_alone-IsTimely base len f b v l
plan-IsTimely now base len (some parent) f n b calm v l =
    let base' = max now parent.virtual_finish_time in
    let finish = calm.finish in
    let far : base' ≤ 2 ^ 62 = ground arith in
    delay_by-IsTimely base (plan_alone base' len parent).0 (plan_alone base len f)
      (choose base len f) (plan_alone-IsTimely base len f b v l) (choose-IsTimely base len f b v l)
      (plan_alone-IsTimely base' len parent far calm l).bound
      (never base f (choose base len f) b v (choose-IsTimely base len f b v l))
