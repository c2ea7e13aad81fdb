-- ===== src/Flow.antt =====
-- hqts/include/hqts/core/flow_context.h, hqts/src/core/flow_context.cpp and the data plane
-- (hqts/include/hqts/dataplane, hqts/src/dataplane): what is known of a flow, and its 5-tuple.
pub mod Context
pub mod Identifier
pub mod Table
pub mod Classifier
