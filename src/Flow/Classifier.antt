-- ===== src/Flow/Classifier.antt =====
-- hqts/include/hqts/dataplane/flow_classifier.h and hqts/src/dataplane/flow_classifier.cpp. The
-- mutex makes a call of `get_or_create_flow` one step. The flow table is shared with the traffic
-- shaper, so it is an argument and a result.
pub mod Laws
use hqts.Base.{ℕ, ◌+◌, ◌%◌, List, [], Option, none, some, add64}
use hqts.Flow.Context.{FlowContext, flow_context, tail_drop}
use hqts.Flow.Identifier.{FiveTuple}
use hqts.Flow.Table.{FlowTable, emplace, KeyMap, find, assign}

pub record FlowClassifier : Type 0 where
  pub flow_key_to_flow_id_map : KeyMap
  pub next_flow_id : ℕ
  pub default_policy_id : ℕ

-- The constructor.
pub flow_classifier : ℕ → FlowClassifier
flow_classifier default_pid = record {
  flow_key_to_flow_id_map = [];
  next_flow_id = 1;
  default_policy_id = default_pid;
}

-- A new flow: an id, a key and a context, at clock reading `now`.
unfoldable pub create_flow :
    FlowClassifier → FlowTable → FiveTuple → ℕ → FlowClassifier × FlowTable × ℕ
create_flow c t five_tuple now =
    let new_id = c.next_flow_id in
    (
      record c {
        flow_key_to_flow_id_map = assign five_tuple new_id c.flow_key_to_flow_id_map;
        next_flow_id = add64 new_id 1;
      },
      emplace new_id (flow_context new_id c.default_policy_id 0 tail_drop now) t,
      new_id,
    )

unfoldable pub get_or_create_flow :
    FlowClassifier → FlowTable → FiveTuple → ℕ → FlowClassifier × FlowTable × ℕ
unfolding create_flow
get_or_create_flow c t five_tuple now = elim (find five_tuple c.flow_key_to_flow_id_map) [
  | some flow_id ↦ (c, t, flow_id)
  | none ↦ create_flow c t five_tuple now
]
