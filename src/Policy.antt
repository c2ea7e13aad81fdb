-- ===== src/Policy.antt =====
-- hqts/include/hqts/policy and hqts/include/hqts/core/shaping_policy.h, with
-- hqts/src/core/shaping_policy.cpp. A name is a list of bytes. `PolicyTree` is a container of
-- Boost.MultiIndex, which the repository does not hold: see `Policy/Tree.antt`.
pub mod Tree
pub mod Listed
use hqts.Base.{ℕ, Bool, List, []}
use hqts.TokenBucket.{TokenBucket, token_bucket}

pub data SchedulingAlgorithm : Type 0 where
  wfq wrr strict_priority drr hfsc : SchedulingAlgorithm

abbrev pub no_parent_policy_id : ℕ
no_parent_policy_id = 0

pub record PolicyStatistics : Type 0 where
  pub bytes_processed : ℕ
  pub packets_processed : ℕ
  pub bytes_dropped : ℕ
  pub packets_dropped : ℕ

pub record ShapingPolicy : Type 0 where
  pub id : ℕ
  pub parent_id : ℕ
  pub children_ids : List ℕ
  pub name : List ℕ
  pub committed_rate_bps : ℕ
  pub peak_rate_bps : ℕ
  pub committed_burst_bytes : ℕ
  pub excess_burst_bytes : ℕ
  pub algorithm : SchedulingAlgorithm
  pub weight : ℕ
  pub priority_level : ℕ
  pub drop_on_red : Bool
  pub target_priority_green : ℕ
  pub target_priority_yellow : ℕ
  pub target_priority_red : ℕ
  pub target_queue_id_green : ℕ
  pub target_queue_id_yellow : ℕ
  pub target_queue_id_red : ℕ
  pub cir_bucket : TokenBucket
  pub pir_bucket : TokenBucket
  pub stats : PolicyStatistics
  pub last_updated : ℕ

-- The constructor. Each bucket and `last_updated` take a reading of the clock, in this order.
pub shaping_policy :
    (id parent_id : ℕ) (name : List ℕ) (committed_rate peak_rate committed_burst excess_burst : ℕ)
    (algorithm : SchedulingAlgorithm) (weight priority_level : ℕ) (drop_on_red : Bool)
    (prio_g prio_y prio_r qid_g qid_y qid_r : ℕ) (now now' now'' : ℕ)
    → ShapingPolicy
unfolding token_bucket
shaping_policy id parent_id name committed_rate peak_rate committed_burst excess_burst algorithm
      weight priority_level drop_on_red prio_g prio_y prio_r qid_g qid_y qid_r now now' now'' =
    record {
      id = id;
      parent_id = parent_id;
      children_ids = [];
      name = name;
      committed_rate_bps = committed_rate;
      peak_rate_bps = peak_rate;
      committed_burst_bytes = committed_burst;
      excess_burst_bytes = excess_burst;
      algorithm = algorithm;
      weight = weight;
      priority_level = priority_level;
      drop_on_red = drop_on_red;
      target_priority_green = prio_g;
      target_priority_yellow = prio_y;
      target_priority_red = prio_r;
      target_queue_id_green = qid_g;
      target_queue_id_yellow = qid_y;
      target_queue_id_red = qid_r;
      cir_bucket = token_bucket committed_rate committed_burst now;
      pir_bucket = token_bucket peak_rate excess_burst now';
      stats = record {
        bytes_processed = 0;
        packets_processed = 0;
        bytes_dropped = 0;
        packets_dropped = 0;
      };
      last_updated = now'';
    }
