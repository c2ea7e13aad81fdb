-- ===== src/Scheduler/Hfsc/Timing.antt =====
-- The times at which a flow's first packet may start and finish, by the curves of the flow and of
-- its parent: steps 1 to 3 of `update_flow_schedule`, and the same steps in `dequeue`.
use hqts.Base.{
  ℕ, ◌/◌, ◌==◌, max, ◌&&◌, List, Option, none, some, ltb, leb, if◌then◌else◌, u64_max, add64, sub64,
  mul64,
}
use hqts.Packet.{PacketDescriptor}

pub record ServiceCurve : Type 0 where
  pub rate_bps : ℕ
  pub delay_us : ℕ

pub record HfscFlowState : Type 0 where
  pub flow_id : ℕ
  pub packet_queue : List PacketDescriptor
  pub real_time_sc : ServiceCurve
  pub link_share_sc : ServiceCurve
  pub upper_limit_sc : ServiceCurve
  pub virtual_start_time : ℕ
  pub virtual_finish_time : ℕ
  pub eligible_time : ℕ
  pub virtual_finish_time_ul : ℕ
  pub parent_id : ℕ
  pub children_ids : List ℕ

unfoldable pub calculate_packet_service_time_us : ℕ → ServiceCurve → ℕ
calculate_packet_service_time_us len sc =
    if sc.rate_bps == 0 then u64_max else mul64 (mul64 len 8) 1_000_000 / sc.rate_bps

-- The eligible time and the finish time by one curve.
unfoldable pub by_curve : ℕ → ℕ → ServiceCurve → ℕ × ℕ
by_curve base len sc =
    let eligible = add64 base sc.delay_us in
    (eligible, add64 eligible (calculate_packet_service_time_us len sc))

-- The earlier finish of the real-time and the link-share curve, where the flow has them.
unfoldable pub choose : ℕ → ℕ → HfscFlowState → ℕ × ℕ
choose base len f =
    let rt = by_curve base len f.real_time_sc in
    let ls = by_curve base len f.link_share_sc in
    if ltb 0 f.real_time_sc.rate_bps && ltb 0 f.link_share_sc.rate_bps
    then (if leb rt.1 ls.1 then rt else ls)
    else (if ltb 0 f.real_time_sc.rate_bps
        then rt
        else (if ltb 0 f.link_share_sc.rate_bps then ls else (0, u64_max)))

unfoldable pub service_time : ℕ × ℕ → ℕ
service_time (eligible, vft) = if vft == u64_max then u64_max else sub64 vft eligible

-- The upper limit delays the start, not the service.
unfoldable pub limit : ℕ → HfscFlowState → ℕ × ℕ → ℕ × ℕ
limit base f (eligible, vft) =
    let later =
      max eligible (add64 (max base f.virtual_finish_time_ul) f.upper_limit_sc.delay_us) in
    if ltb 0 f.upper_limit_sc.rate_bps
    then (later, if vft == u64_max then vft else add64 later (service_time (eligible, vft)))
    else (eligible, vft)

-- By the flow's own curves.
unfoldable pub plan_alone : ℕ → ℕ → HfscFlowState → ℕ × ℕ
plan_alone base len f = limit base f (choose base len f)

-- The parent, too, delays the start.
unfoldable pub delay_by : ℕ × ℕ → ℕ → ℕ → ℕ × ℕ
delay_by (eligible, vft) service parent_eligible =
    let later = max eligible parent_eligible in
    (later, if service == u64_max then u64_max else add64 later service)

-- `now` is the scheduler's virtual time.
unfoldable pub plan : ℕ → Option HfscFlowState → HfscFlowState → ℕ → ℕ → ℕ × ℕ
plan now none f base len = plan_alone base len f
plan now (some parent) f base len =
    delay_by (plan_alone base len f) (service_time (choose base len f))
      (plan_alone (max now parent.virtual_finish_time) len parent).0
