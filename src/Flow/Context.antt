-- ===== src/Flow/Context.antt =====
-- hqts/include/hqts/core/flow_context.h and hqts/src/core/flow_context.cpp.
use hqts.Base.{ℕ}

pub data DropPolicy : Type 0 where
  tail_drop random_early_detection weighted_random_early_detection : DropPolicy

pub data SlaStatus : Type 0 where
  conforming non_conforming unknown : SlaStatus

-- A `steady_clock::time_point`: `time_point::min()`, or a reading of the clock.
pub data TimePoint : Type 0 where
  earliest : TimePoint
  reading : ℕ → TimePoint

pub record FlowStatistics : Type 0 where
  pub bytes_processed : ℕ
  pub packets_processed : ℕ
  pub bytes_dropped : ℕ
  pub packets_dropped : ℕ
  pub first_packet_time : TimePoint
  pub last_packet_time : TimePoint

-- The default constructor.
abbrev pub flow_statistics : FlowStatistics
flow_statistics = record {
  bytes_processed = 0;
  packets_processed = 0;
  bytes_dropped = 0;
  packets_dropped = 0;
  first_packet_time = earliest;
  last_packet_time = earliest;
}

pub record FlowContext : Type 0 where
  pub flow_id : ℕ
  pub policy_id : ℕ
  pub current_rate_bps : ℕ
  pub accumulated_bytes_in_period : ℕ
  pub queue_id : ℕ
  pub current_queue_depth_bytes : ℕ
  pub drop_policy : DropPolicy
  pub stats : FlowStatistics
  pub sla_status : SlaStatus
  pub last_packet_processing_time : TimePoint

-- The constructor, at clock reading `now`.
unfoldable pub flow_context : ℕ → ℕ → ℕ → DropPolicy → ℕ → FlowContext
flow_context f_id p_id q_id d_policy now = record {
  flow_id = f_id;
  policy_id = p_id;
  current_rate_bps = 0;
  accumulated_bytes_in_period = 0;
  queue_id = q_id;
  current_queue_depth_bytes = 0;
  drop_policy = d_policy;
  stats = flow_statistics;
  sla_status = unknown;
  last_packet_processing_time = reading now;
}
