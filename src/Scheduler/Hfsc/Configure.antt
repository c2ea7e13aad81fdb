-- ===== src/Scheduler/Hfsc/Configure.antt =====
-- The constructor of `HfscScheduler`.
use hqts.Base.{
  ℕ, ◌==◌, true, false, not, ◌&&◌, List, [], ◌∷◌, ◌++◌, none, some, if◌then◌else◌, Result, ok, err,
  ◌>>=◌, invalid_argument, lookup, insert,
}
use hqts.Scheduler.Hfsc.Timing.{ServiceCurve, HfscFlowState}
use hqts.Scheduler.Hfsc.{HfscScheduler}

pub record FlowConfig : Type 0 where
  pub id : ℕ
  pub parent_id : ℕ
  pub real_time_sc : ServiceCurve
  pub link_share_sc : ServiceCurve
  pub upper_limit_sc : ServiceCurve

unfoldable pub hfsc_flow_state : FlowConfig → HfscFlowState
hfsc_flow_state fc = record {
  flow_id = fc.id;
  packet_queue = [];
  real_time_sc = fc.real_time_sc;
  link_share_sc = fc.link_share_sc;
  upper_limit_sc = fc.upper_limit_sc;
  virtual_start_time = 0;
  virtual_finish_time = 0;
  eligible_time = 0;
  virtual_finish_time_ul = 0;
  parent_id = fc.parent_id;
  children_ids = [];
}

abbrev pub Flows : Type 0
Flows = List (ℕ × HfscFlowState)

abbrev pub Children : Type 0
Children = List (ℕ × List ℕ)

-- parent_to_children_map[parent].push_back(child)
unfoldable pub add_child : ℕ → ℕ → Children → Children
add_child parent child m = elim (lookup parent m) [
  | none ↦ insert parent (child ∷ []) m
  | some ids ↦ insert parent (ids ++ child ∷ []) m
]

-- One round of the first loop.
unfoldable pub add_flow : Flows × Children → FlowConfig → Result (Flows × Children)
add_flow (flows, children) fc = elim (lookup fc.id flows) [
  | some _ ↦ err invalid_argument
  | none ↦
      if fc.id == fc.parent_id && not (fc.id == 0)
      then err invalid_argument
      else ok (
        insert fc.id (hfsc_flow_state fc) flows,
        if fc.parent_id == 0 then children else add_child fc.parent_id fc.id children,
      )
]

unfoldable pub add_flows : List FlowConfig → Flows × Children → Result (Flows × Children)
add_flows [] built = ok built
add_flows (fc ∷ rest) built = add_flow built fc >>= add_flows rest

-- The second loop.
unfoldable pub set_children : Children → Flows → Result Flows
set_children [] flows = ok flows
set_children ((parent, ids) ∷ rest) flows = elim (lookup parent flows) [
  | none ↦ err invalid_argument
  | some f ↦ set_children rest (insert parent (record f { children_ids = ids }) flows)
]

unfoldable pub hfsc_scheduler : List FlowConfig → ℕ → Result HfscScheduler
hfsc_scheduler [] bandwidth = ok (record {
  flow_states = [];
  total_link_bandwidth_bps = bandwidth;
  current_virtual_time = 0;
  total_packets = 0;
  is_configured = false;
  eligible_set = [];
})
hfsc_scheduler (fc ∷ fcs) bandwidth = add_flows (fc ∷ fcs) ([], []) >>= λ (flows, children).
    set_children children flows >>= λ flows'. ok (record {
      flow_states = flows';
      total_link_bandwidth_bps = bandwidth;
      current_virtual_time = 0;
      total_packets = 0;
      is_configured = true;
      eligible_set = [];
    })
