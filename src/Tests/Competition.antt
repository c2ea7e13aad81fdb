-- ===== src/Tests/Competition.antt =====
-- Two queues that compete: of the weighted and of the deficit round robin scheduler.
use hqts.Base.{
  ℕ, zero, suc, ◌+◌, ◌*◌, ◌≤◌, ◌<◌, ◌≡◌, refl, true, some, none, Option, ◌++◌, List, [], ◌∷◌,
  length, lookup, insert, All, arith, ok,
}
use hqts.Aqm.{RedAqmParameters}
use hqts.Aqm.Numerics.{fixed_point, counting}
use hqts.Aqm.Queue.{red_queue, red_factory}
use hqts.Tests.{Queue, red_params, packet_to}
use hqts.Tests.RoundRobin.{two_weights, two_weights-IsWeighted}
use hqts.Tests.Deficits.{starved, starved-IsQuantized}
use hqts.Scheduler.Calls.{after}
use hqts.Scheduler.Wrr
use hqts.Scheduler.Wrr.Account.{IsTurn, dequeue-IsTurn}
use hqts.Scheduler.Wrr.Fairness
use hqts.Scheduler.Wrr.Fairness.{contend_fair}
use hqts.Scheduler.Drr
use hqts.Scheduler.Drr.Invariant.{IsQuantized, packets}
use hqts.Scheduler.Drr.Order.{drr}
use hqts.Scheduler.Drr.Progress.{Succeeds}
use hqts.Scheduler.Drr.Patience.{dequeue_patient}
use hqts.Scheduler.Drr.Turns.{Covered}
use hqts.Scheduler.Drr.Equal
use hqts.Scheduler.Drr.Equal.{Contend, contend_equal}
use hqts.Scheduler.Drr.Account
use hqts.Scheduler.Drr.Account.Search.{dequeue_pays}
use hqts.Scheduler.Drr.Compete
use hqts.Scheduler.Drr.Fairness.{contend_quantized}
use hqts.Packet.{PacketDescriptor}
use mathlib.Core.List.{Sublist}
use hqts.Scheduler.Lanes.{of_class, run, arrivals}
use hqts.Scheduler.Lanes.Order.{IsSorted, waiting, run_in_order}
use hqts.Scheduler.Drr.InOrder.{drr-HasLanes}
use hqts.Scheduler.Drr.Configured.{HasQuantum, drr_scheduler-IsQuantized}
use hqts.Tests.{stored}

dequeue-IsTurn_example : (r : ℕ) × IsTurn two_weights (Wrr.dequeue two_weights).0 r
dequeue-IsTurn_example = dequeue-IsTurn two_weights two_weights-IsWeighted (λ e. ground (arith, e))

both_wait : (0 < Fairness.backlog two_weights 0) × (0 < Fairness.backlog two_weights 1)
unfolding red_queue
both_wait = (omega arith, omega arith)

-- One call of `dequeue`, and one packet more.
abbrev wrr_run :
    Fairness.Contend 0 1 two_weights
      (0 + Fairness.taken two_weights 0)
      (0 + Fairness.taken two_weights 1)
      (Wrr.enqueue (Wrr.dequeue two_weights).0 (packet_to 10 200)).0
wrr_run =
    Fairness.stored (packet_to 10 200) (Fairness.called both_wait.0 both_wait.1 Fairness.started)

contend_fair_example :
    ((0 + Fairness.taken two_weights 0) * 1 ≤ (0 + Fairness.taken two_weights 1) * 2 + 2 * (2 * 1))
    × ((0 + Fairness.taken two_weights 1) * 2
        ≤ (0 + Fairness.taken two_weights 0) * 1 + 2 * (1 * 2))
contend_fair_example =
    contend_fair 0 1 two_weights _ _ _ _ _ two_weights-IsWeighted refl refl (omega arith)
      (omega arith) wrr_run

dequeue_patient_example :
    (n : ℕ) × (100 * (n * 2) < 900 + 100) × Succeeds (Drr.dequeue (after n starved))
unfolding red_queue
dequeue_patient_example =
    dequeue_patient starved 0 _ (packet_to 10 900) [] starved-IsQuantized refl refl (omega arith)

-- Quanta of 300 and 3000, and packets of 200 bytes.
abbrev unlike : Drr.DrrScheduler Queue
unlike = record {
  queues =
      record {
        packet_queue = stored (packet_to 10 200 ∷ packet_to 10 200 ∷ []);
        quantum_bytes = 300;
        deficit_counter = 0;
        external_id = 10;
      }
      ∷ record {
        packet_queue = stored (packet_to 20 200 ∷ packet_to 20 200 ∷ []);
        quantum_bytes = 3000;
        deficit_counter = 0;
        external_id = 20;
      }
      ∷ [];
  queue_id_to_index = (10, 0) ∷ (20, 1) ∷ [];
  current_queue_index = 0;
  total_packets = 4;
  is_configured = true;
}

unlike_mapped : (k i : ℕ) → lookup k unlike.queue_id_to_index ≡ some i → i < length unlike.queues
unfolding lookup
unlike_mapped k i e = grind (arith, e)

unlike-IsQuantized : IsQuantized unlike
unfolding red_queue
unlike-IsQuantized = record {
  configured = refl;
  index = omega arith;
  total = refl;
  mapped = unlike_mapped;
}

unlike-Covered : Covered unlike
unfolding red_queue
unlike-Covered zero q p ps e f = grind (arith, e, f)
unlike-Covered (suc zero) q p ps e f = grind (arith, e, f)
unlike-Covered (suc (suc k)) q p ps e f = cc

unlike_wait : (0 < Equal.backlog unlike 0) × (0 < Equal.backlog unlike 1)
unfolding red_queue
unlike_wait = (omega arith, omega arith)

abbrev unlike_run :
    Contend 0 1 unlike (0 + Equal.taken unlike 0) (0 + Equal.taken unlike 1) (Drr.dequeue unlike).0
unlike_run = Equal.called unlike_wait.0 unlike_wait.1 unlike-Covered Equal.started

contend_equal_example :
    (0 + Equal.taken unlike 0 ≤ 0 + Equal.taken unlike 1 + 1)
    × (0 + Equal.taken unlike 1 ≤ 0 + Equal.taken unlike 0 + 1)
contend_equal_example =
    contend_equal 0 1 unlike _ _ _ unlike-IsQuantized (omega arith) (omega arith) unlike_run

dequeue_pays_example : (n : ℕ) × (n ≤ 2 * 2) × Account.IsTurn unlike (Drr.dequeue unlike).0 n
dequeue_pays_example = dequeue_pays unlike unlike-IsQuantized (λ e. ground (arith, e))

-- One call of `dequeue`, and one packet more.
abbrev byte_run :
    Compete.Compete 0 1 unlike
      (0 + Compete.bytes_taken unlike 0)
      (0 + Compete.bytes_taken unlike 1)
      (Drr.enqueue (Drr.dequeue unlike).0 (packet_to 10 200)).0
byte_run =
    Compete.stored (packet_to 10 200) (Compete.called unlike_wait.0 unlike_wait.1 Compete.started)

contend_quantized_example :
    let t = (Drr.enqueue (Drr.dequeue unlike).0 (packet_to 10 200)).0 in
    (x : ℕ) × (y : ℕ) × Compete.HasPaid t 0 300 0 (0 + Compete.bytes_taken unlike 0) x
    × Compete.HasPaid t 1 3000 0 (0 + Compete.bytes_taken unlike 1) y
    × (x ≤ y + 1)
    × (y ≤ x + 1)
contend_quantized_example =
    contend_quantized 0 1 unlike _ _ _ _ _ unlike-IsQuantized refl refl byte_run

unlike-IsSorted : IsSorted drr-HasLanes unlike
unfolding drr-HasLanes red_queue lookup
unlike-IsSorted zero = (refl, (refl, tt))
unlike-IsSorted (suc zero) = (refl, (refl, tt))
unlike-IsSorted (suc (suc k)) = tt

abbrev unlike_calls : List (Option PacketDescriptor)
unlike_calls = none ∷ some (packet_to 10 700) ∷ some (packet_to 20 100) ∷ none ∷ none ∷ []

run_in_order_example :
    Sublist
      (of_class 10 (run unlike_calls unlike).1
        ++ waiting drr-HasLanes (run unlike_calls unlike).0 10 0)
      (waiting drr-HasLanes unlike 10 0 ++ of_class 10 (arrivals unlike_calls))
unfolding drr-HasLanes lookup
run_in_order_example =
    run_in_order drr-HasLanes unlike 10 0 unlike_calls unlike-IsQuantized unlike-IsSorted refl

abbrev two_configs : List (Drr.QueueConfig (RedAqmParameters ℕ))
two_configs =
    record { id = 10; quantum_bytes = 300; aqm_params = red_params }
    ∷ record { id = 20; quantum_bytes = 3000; aqm_params = red_params }
    ∷ []

-- What the constructor makes of `two_configs`.
abbrev two_empty : Drr.DrrScheduler Queue
two_empty = record unlike {
  queues =
      record {
        packet_queue = record (stored []) { random_generator = 5 };
        quantum_bytes = 300;
        deficit_counter = 0;
        external_id = 10;
      }
      ∷ record {
        packet_queue = record (stored []) { random_generator = 6 };
        quantum_bytes = 3000;
        deficit_counter = 0;
        external_id = 20;
      }
      ∷ [];
  total_packets = 0;
}

two_configs_make : Drr.drr_scheduler two_configs (λ i. i + 5) ≡ ok two_empty
unfolding Drr.drr_scheduler Drr.add_queues Drr.add_queue Drr.internal_queue_state red_factory lookup
    insert
two_configs_make = refl

drr_scheduler-IsQuantized_example :
    IsQuantized two_empty
    × (length two_empty.queues ≡ length two_configs)
    × (packets two_empty ≡ [])
    × All HasQuantum two_empty.queues
drr_scheduler-IsQuantized_example =
    drr_scheduler-IsQuantized two_configs (λ i. i + 5) two_empty two_configs_make
