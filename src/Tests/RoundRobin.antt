-- ===== src/Tests/RoundRobin.antt =====
-- The weighted round robin scheduler.
use hqts.Base.{
  ℕ, ◌+◌, ◌<◌, ◌≡◌, refl, ◌⊎◌, true, some, List, [], ◌∷◌, length, lookup, insert, All, ok, err,
  logic_error, arith,
}
use hqts.Aqm.{RedAqmParameters}
use hqts.Aqm.Numerics.{fixed_point, counting}
use hqts.Aqm.Queue.{red_queue, red_factory}
use hqts.Scheduler.Interface.{TakesOrFails}
use hqts.Tests.{Queue, red_params, packet_to, stored}
use hqts.Base.Int.{pos}
use hqts.Scheduler.Wrr.{
  WrrScheduler, QueueConfig, wrr_scheduler, add_queues, add_queue, internal_queue_state, dequeue,
  replenish_all_deficits, to_int32,
}
use hqts.Scheduler.Wrr.Invariant.{IsWeighted, packets}
use hqts.Scheduler.Wrr.Order.{IsSent, NobodyCanSend, dequeue_round_robin, dequeue-IsWeighted}
use hqts.Scheduler.Wrr.Weights.{IsInt32, dequeue_oversized}
use hqts.Scheduler.Wrr.Configured.{wrr_scheduler-IsWeighted}

-- Queues 10 and 20 of weights 2 and 1; the first is exhausted.
abbrev pub two_weights : WrrScheduler Queue
two_weights = record {
  queues =
      record {
        packet_queue = stored (packet_to 10 300 ∷ []);
        weight = 2;
        current_deficit = pos 0;
        external_id = 10;
      }
      ∷ record {
        packet_queue = stored (packet_to 20 500 ∷ packet_to 20 200 ∷ []);
        weight = 1;
        current_deficit = pos 1;
        external_id = 20;
      }
      ∷ [];
  queue_id_to_index = (10, 0) ∷ (20, 1) ∷ [];
  current_queue_index = 0;
  total_packets = 3;
  is_configured = true;
}

two_weights_mapped :
    (k i : ℕ) → lookup k two_weights.queue_id_to_index ≡ some i → i < length two_weights.queues
unfolding lookup
two_weights_mapped k i e = grind (arith, e)

pub two_weights-IsWeighted : IsWeighted two_weights
unfolding red_queue
two_weights-IsWeighted = record {
  configured = refl;
  index = omega arith;
  total = refl;
  mapped = two_weights_mapped;
  charged = (
    record { weight_pos = omega arith; weight_fits = omega arith; deficit = omega arith },
    (record { weight_pos = omega arith; weight_fits = omega arith; deficit = omega arith }, tt),
  );
}

abbrev two_configs : List (QueueConfig (RedAqmParameters ℕ))
two_configs =
    record { id = 10; weight = 2; aqm_params = red_params }
    ∷ record { id = 20; weight = 1; aqm_params = red_params }
    ∷ []

-- What the constructor makes of `two_configs`.
abbrev two_empty : WrrScheduler Queue
two_empty = record {
  queues =
      record {
        packet_queue = record (stored []) { random_generator = 5 };
        weight = 2;
        current_deficit = pos 2;
        external_id = 10;
      }
      ∷ record {
        packet_queue = record (stored []) { random_generator = 6 };
        weight = 1;
        current_deficit = pos 1;
        external_id = 20;
      }
      ∷ [];
  queue_id_to_index = (10, 0) ∷ (20, 1) ∷ [];
  current_queue_index = 0;
  total_packets = 0;
  is_configured = true;
}

two_configs_make : wrr_scheduler two_configs (λ i. i + 5) ≡ ok two_empty
unfolding wrr_scheduler add_queues add_queue internal_queue_state red_factory lookup insert
two_configs_make = refl

-- One queue of the largest weight, which the cast to `int32_t` makes -1.
abbrev oversized : WrrScheduler Queue
oversized = record {
  queues =
      record {
        packet_queue = stored (packet_to 10 300 ∷ []);
        weight = 4_294_967_295;
        current_deficit = to_int32 4_294_967_295;
        external_id = 10;
      }
      ∷ [];
  queue_id_to_index = (10, 0) ∷ [];
  current_queue_index = 0;
  total_packets = 1;
  is_configured = true;
}

dequeue_round_robin_example :
    IsSent two_weights (dequeue two_weights)
    ⊎ (NobodyCanSend two_weights
        × IsSent (replenish_all_deficits two_weights) (dequeue two_weights))
dequeue_round_robin_example =
    dequeue_round_robin two_weights two_weights-IsWeighted (λ e. ground (arith, e))

dequeue-IsWeighted_example :
    IsWeighted (dequeue two_weights).0
    × TakesOrFails (packets two_weights) (dequeue two_weights).1 (packets (dequeue two_weights).0)
dequeue-IsWeighted_example = dequeue-IsWeighted two_weights two_weights-IsWeighted

dequeue_oversized_example :
    (dequeue oversized ≡ (replenish_all_deficits oversized, err logic_error))
    × All (λ q. IsInt32 q.current_deficit) oversized.queues
    × All (λ q. IsInt32 q.current_deficit) (dequeue oversized).0.queues
dequeue_oversized_example =
    dequeue_oversized oversized refl (omega arith) (λ e. ground (arith, e))
      (record { large = omega arith; word = omega arith; initial = refl }, tt)

wrr_scheduler-IsWeighted_example :
    IsWeighted two_empty × (length two_empty.queues ≡ length two_configs) × (packets two_empty ≡ [])
wrr_scheduler-IsWeighted_example =
    wrr_scheduler-IsWeighted two_configs (λ i. i + 5) two_empty (omega arith, (omega arith, tt))
      two_configs_make
