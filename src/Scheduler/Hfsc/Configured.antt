-- ===== src/Scheduler/Hfsc/Configured.antt =====
-- What the constructor of the HFSC scheduler makes.
use hqts.Base.{
  ℕ, ◌==◌, ◌≡◌, refl, subst, ap, sym, ◌∙◌, length, inl, inr, Bool, true, false, not, ◌&&◌, List, [],
  ◌∷◌, ok, >>=-eq-ok, lookup, insert, Bool-cases, Option-cases, arith,
}
use hqts.Scheduler.Hfsc.{HfscScheduler}
use hqts.Scheduler.Hfsc.Configure.{
  FlowConfig, Flows, Children, hfsc_flow_state, add_flow, add_flows, set_children, hfsc_scheduler,
}
use hqts.Scheduler.Hfsc.Live.Listed.{IsListed}
use hqts.Scheduler.Hfsc.Bag.{packets}
use hqts.Scheduler.Hfsc.Contract.{IsAccounted}
use hqts.Scheduler.Hfsc.Eligible.{IsScheduled}
use hqts.Scheduler.Hfsc.Fresh.{IsFresh, insert-IsFresh, fresh-IsListed, no_flows-IsFresh}

add_flow-IsFresh :
    (built after : Flows × Children) (fc : FlowConfig)
    → IsFresh built.0
    → add_flow built fc ≡ ok after
    → IsFresh after.0
unfolding add_flow hfsc_flow_state
add_flow-IsFresh (flows, children) after fc v e = elim (Option-cases (lookup fc.id flows)) [
  | inr (f, g) ↦ absurd (ground (arith, e, g))
  | inl g ↦ elim (Bool-cases (fc.id == fc.parent_id && not (fc.id == 0))) [
    | inl own ↦ absurd (ground (arith, e, g, own))
    | inr fine ↦
        let new = insert-IsFresh flows fc.id (hfsc_flow_state fc) refl refl v in
        let same : after.0 ≡ insert fc.id (hfsc_flow_state fc) flows = ground (arith, e, g, fine) in
        rw same new
  ]
]

add_flows-IsFresh :
    (fcs : List FlowConfig) (built after : Flows × Children)
    → IsFresh built.0
    → add_flows fcs built ≡ ok after
    → IsFresh after.0
unfolding add_flows
add_flows-IsFresh [] built after v e =
    let same : built ≡ after = ground (arith, e) in
    subst (λ (x : Flows × Children). IsFresh x.0) same v
add_flows-IsFresh (fc ∷ fcs) built after v e =
    let (mid, one, rest) = >>=-eq-ok (add_flow built fc) (add_flows fcs) e in
    add_flows-IsFresh fcs mid after (add_flow-IsFresh built mid fc v one) rest

set_children-IsFresh :
    (children : Children) (flows after : Flows)
    → IsFresh flows
    → set_children children flows ≡ ok after
    → IsFresh after
unfolding set_children
set_children-IsFresh [] flows after v e =
    let same : flows ≡ after = ground (arith, e) in subst IsFresh same v
set_children-IsFresh ((parent, ids) ∷ rest) flows after v e =
    elim (Option-cases (lookup parent flows)) [
      | inl g ↦ absurd (ground (arith, e, g))
      | inr (f, g) ↦
          let flows' = insert parent (record f { children_ids = ids }) flows in
          let w =
            insert-IsFresh flows parent (record f { children_ids = ids }) (v.named parent f g)
              (v.idle parent f g) v in
          set_children-IsFresh rest flows' after w (ground (arith, g, e))
    ]

-- A configured scheduler of these flows, with no packet.
abbrev made : Flows → ℕ → Bool → HfscScheduler
made flows bandwidth configured = record {
  flow_states = flows;
  total_link_bandwidth_bps = bandwidth;
  current_virtual_time = 0;
  total_packets = 0;
  is_configured = configured;
  eligible_set = [];
}

abbrev Fresh : HfscScheduler → Type 0
Fresh s =
    IsScheduled s.flow_states s.eligible_set
    × (s.eligible_set ≡ [])
    × (s.total_packets ≡ 0)
    × (packets s ≡ [])
    × IsListed s.flow_states s.eligible_set

made-Fresh :
    (flows : Flows) (bandwidth : ℕ) (configured : Bool) (s : HfscScheduler)
    → IsFresh flows
    → ok (made flows bandwidth configured) ≡ ok s
    → Fresh s
made-Fresh flows bandwidth configured s v e =
    let same : made flows bandwidth configured ≡ s = ground (arith, e) in
    subst Fresh same (
      record { named = v.named; waiting = tt; ordered = tt },
      refl,
      refl,
      v.none_held,
      fresh-IsListed flows v,
    )

hfsc_scheduler-Fresh :
    (fcs : List FlowConfig) (bandwidth : ℕ) (s : HfscScheduler)
    → hfsc_scheduler fcs bandwidth ≡ ok s
    → Fresh s
unfolding hfsc_scheduler
hfsc_scheduler-Fresh [] bandwidth s e = made-Fresh [] bandwidth false s no_flows-IsFresh e
hfsc_scheduler-Fresh (fc ∷ fcs) bandwidth s e =
    let (built, one, rest) = >>=-eq-ok (add_flows (fc ∷ fcs) ([], [])) _ e in
    let (flows, two, last) = >>=-eq-ok (set_children built.1 built.0) _ rest in
    let v = add_flows-IsFresh (fc ∷ fcs) ([], []) built no_flows-IsFresh one in
    made-Fresh flows bandwidth true s (set_children-IsFresh built.1 built.0 flows v two) last

-- Where the constructor does not throw, the scheduler has every flow under its own id, and no packet
-- and no eligible flow.
pub hfsc_scheduler-IsScheduled :
    (fcs : List FlowConfig) (bandwidth : ℕ) (s : HfscScheduler)
    → hfsc_scheduler fcs bandwidth ≡ ok s
    → IsScheduled s.flow_states s.eligible_set × (s.eligible_set ≡ []) × (s.total_packets ≡ 0)
hfsc_scheduler-IsScheduled fcs bandwidth s e =
    let (v, none_eligible, count, _, _) = hfsc_scheduler-Fresh fcs bandwidth s e in
    (v, none_eligible, count)

made_on :
    (fc : FlowConfig) (fcs : List FlowConfig) (bandwidth : ℕ) (s : HfscScheduler)
    → hfsc_scheduler (fc ∷ fcs) bandwidth ≡ ok s
    → s.is_configured ≡ true
unfolding hfsc_scheduler
made_on fc fcs bandwidth s e =
    let (built, one, rest) = >>=-eq-ok (add_flows (fc ∷ fcs) ([], [])) _ e in
    let (flows, two, last) = >>=-eq-ok (set_children built.1 built.0) _ rest in ground (arith, last)

-- Where the constructor is given a flow and does not throw, the scheduler is configured, its count
-- and its flows are right, no flow is eligible, no packet is held, no flow is there twice and each
-- flow that holds a packet has an entry in the eligible set.
pub hfsc_scheduler-IsAccounted :
    (fc : FlowConfig) (fcs : List FlowConfig) (bandwidth : ℕ) (s : HfscScheduler)
    → hfsc_scheduler (fc ∷ fcs) bandwidth ≡ ok s
    → IsAccounted s
      × (s.eligible_set ≡ [])
      × (packets s ≡ [])
      × IsListed s.flow_states s.eligible_set
hfsc_scheduler-IsAccounted fc fcs bandwidth s e =
    let (v, none_eligible, count, none_held, listed) =
      hfsc_scheduler-Fresh (fc ∷ fcs) bandwidth s e in
    (
      record {
        configured = made_on fc fcs bandwidth s e;
        scheduled = v;
        total = count ∙ ap length (sym none_held);
      },
      none_eligible,
      none_held,
      listed,
    )
