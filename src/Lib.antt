-- ===== src/Lib.antt =====
-- A verification library for the hierarchical QoS traffic shaper of hqts/.
--
-- A packet enters through the pipeline (hqts/src/core/packet_pipeline.cpp). The traffic shaper
-- (hqts/src/core/traffic_shaper.cpp) asks the flow classifier
-- (hqts/src/dataplane/flow_classifier.cpp) for the flow of its 5-tuple, finds the flow's policy in
-- the policy tree, charges the two token buckets of the policy (hqts/src/core/token_bucket.cpp),
-- colours the packet and drops it or gives it a priority. A scheduler (hqts/src/scheduler) keeps the
-- packets that pass in RED queues and says which one leaves next.
--
-- Which file models what:
--   TokenBucket   core/token_bucket: `refill`, `consume`, and the rest of the class.
--   Packet        scheduler/packet_descriptor.h.
--   Aqm           scheduler/aqm_queue: the RED queue, one definition for each step of `enqueue`.
--                 Aqm/Interface has what a scheduler uses of a queue, and Aqm/Queue is the
--                 instance for the RED queue.
--   Scheduler     scheduler/strict_priority_scheduler, wrr_scheduler and drr_scheduler, each over
--                 any queue of Aqm/Interface. Scheduler/Hfsc is hfsc_scheduler, with plain queues;
--                 its times are in Scheduler/Hfsc/Timing. Scheduler/Interface has
--                 scheduler_interface.h and the contract for these four: a bag of packets that says
--                 which packets it stores. Scheduler/Lanes has the contract for a scheduler that
--                 keeps a queue for each priority, which all but HFSC meet (InOrder of each).
--                 Scheduler/Calls has calls of `dequeue` in a row.
--   Flow          core/flow_context, dataplane/flow_identifier.h, flow_table.h, flow_classifier.
--   Policy        core/shaping_policy, policy/policy_types.h, policy/policy_tree.h.
--   Shaper        core/traffic_shaper.
--   Pipeline      core/packet_pipeline, over any scheduler of Scheduler/Interface.
--   Base          what these share; Tests has concrete runs.
--
-- State is passed explicitly: a method takes the object as a record and returns it with the result.
-- Objects that others hold by reference are fields of the state of the one that uses them. An
-- exception is a value of `Result`, beside the object as the method left it. An access that is
-- undefined in C++ is the error `undefined`. Unsigned 32-bit and 64-bit sums and products that can
-- wrap are taken modulo 2 ^ 32 and 2 ^ 64; fields that are only copied or compared are natural
-- numbers. Clock readings are arguments. The search of the DRR `dequeue` runs on its own bound of
-- two rounds; the two passes of the WRR `while` loop are written out, as it ends in the second at
-- the latest. No other loop needs a bound.
--
-- Parameters: `double` arithmetic and the random generator (Aqm/Numerics) and the Boost.MultiIndex
-- container of policies (Policy/Tree), each with named laws, and the standard hashes of integers.
-- Each set of laws has an instance.
--
-- Not modelled: the stub main.cpp, the unit tests and the build. The overflow of signed counters,
-- undefined in C++, is not modelled.
pub mod Aqm
pub mod Base
pub mod Flow
pub mod Packet
pub mod Pipeline
pub mod Policy
pub mod Scheduler
pub mod Shaper
pub mod Tests
pub mod TokenBucket
