-- ===== src/Scheduler.antt =====
-- hqts/include/hqts/scheduler and hqts/src/scheduler: the interface and its implementations.
pub mod Bank
pub mod Interface
pub mod Calls
pub mod Rows
pub mod Lanes
pub mod StrictPriority
pub mod Wrr
pub mod Drr
pub mod Hfsc
