-- ===== src/Shaper/Process.antt =====
-- `process_packet` as a whole: what it decides, and what it changes.
use hqts.Base.{
  ℕ, ◌+◌, ◌<◌, ◌^◌, ◌≡◌, ◌≢◌, refl, sym, ap, ◌∙◌, inl, inr, Bool, false, not, ◌&&◌, Option, none,
  some, if◌then◌else◌, ok, lookup, Option-cases, Bool-cases, arith,
}
use hqts.Packet.{PacketDescriptor, ConformanceLevel, red}
use hqts.Policy.{ShapingPolicy}
use hqts.Policy.Tree.{PolicyTree, IsIndexed}
use hqts.Flow.Context.{FlowContext}
use hqts.Flow.Identifier.{FiveTuple}
use hqts.Flow.Classifier.{get_or_create_flow}
use hqts.Flow.Classifier.Laws.{IsClassified, get_or_create_flow-IsClassified}
use hqts.Shaper.{
  TrafficShaper, Readings, apply_token_buckets, is_red, target_priority, mark, shape, apply_policy,
  process_packet,
}

-- The lambda given to `modify` keeps the id, which is the key of the policy.
keeps_id :
    (packet : PacketDescriptor) (policy : ShapingPolicy) (at : Readings)
    → (apply_token_buckets packet policy at).0.id ≡ policy.id
unfolding apply_token_buckets
keeps_id packet policy at = refl

-- The colour and the charges do not depend on the flow id that the call writes.
mark_fields :
    (packet : PacketDescriptor) (policy : ShapingPolicy) (level : ConformanceLevel)
    → let drop_this_packet = is_red level && policy.drop_on_red in
      (mark packet policy level).0 ≡ record packet {
        conformance = level;
        priority = if drop_this_packet then packet.priority else target_priority policy level;
      }
unfolding mark
mark_fields packet policy level = elim (Bool-cases (is_red level && policy.drop_on_red)) [
  | inl e ↦ rw e refl
  | inr e ↦ rw e refl
]

module _ {T : Type 0} ⦃tree : PolicyTree T⦄ where
  -- The policy that a call applies: that of the flow's context, after the classification.
  abbrev pub policy_in_force : TrafficShaper T → FiveTuple → Readings → Option ShapingPolicy
  policy_in_force s k at =
      let (_, t, i) = get_or_create_flow s.flow_classifier s.flow_table k at.context in
      elim (lookup i t) [ none ↦ none | some x ↦ tree.find x.policy_id s.policy_tree ]

  module _ (laws : IsIndexed T) where
    shape_known :
        (s : TrafficShaper T) (packet : PacketDescriptor) (policy_id : ℕ) (policy : ShapingPolicy)
        (at : Readings)
        → tree.find policy_id s.policy_tree ≡ some policy
        → let (policy', level) = apply_token_buckets packet policy at in
          let (s', p, r) = shape s packet policy_id policy at in
          (r ≡ ok (not (is_red level && policy.drop_on_red)))
          × (p ≡ (mark packet policy level).0)
          × (tree.find policy.id s'.policy_tree ≡ some policy')
          × ((j : ℕ) → j ≢ policy.id → tree.find j s'.policy_tree ≡ tree.find j s.policy_tree)
    unfolding shape mark
    shape_known s packet policy_id policy at e =
        let f = λ (p : ShapingPolicy). (apply_token_buckets packet p at).0 in
        let keeps = keeps_id packet policy at in
        let done = laws.modify_succeeds policy_id f s.policy_tree policy e keeps in
        let kept = laws.find-modify policy_id f s.policy_tree policy e keeps in
        let other = λ (j : ℕ). laws.find-modify_other policy_id j f s.policy_tree policy e keeps in
        let same = laws.found_id policy_id s.policy_tree policy e in
        let t = (tree.modify policy_id f s.policy_tree).0 in
        (
          grind (arith, done),
          ground arith,
          ap (λ (i : ℕ). tree.find i t) same ∙ kept,
          λ j differs. other j (λ e'. differs (e' ∙ sym same)),
        )

    process_packet_finds :
        (s : TrafficShaper T) (packet : PacketDescriptor) (k : FiveTuple) (at : Readings)
        (policy : ShapingPolicy) (x : FlowContext)
        → let (c, t, i) = get_or_create_flow s.flow_classifier s.flow_table k at.context in
          lookup i t ≡ some x
          → tree.find x.policy_id s.policy_tree ≡ some policy
          → process_packet s packet k at
            ≡ shape
                (record s { flow_classifier = c; flow_table = t })
                (record packet { flow_id = i })
                x.policy_id
                policy
                at
    unfolding process_packet apply_policy
    process_packet_finds s packet k at policy x e f = rw (e, f, process_packet, apply_policy)

    in_force_cases :
        (s : TrafficShaper T) (k : FiveTuple) (at : Readings) (policy : ShapingPolicy)
        → policy_in_force s k at ≡ some policy
        → let (_, t, i) = get_or_create_flow s.flow_classifier s.flow_table k at.context in
          (x : FlowContext) × (lookup i t ≡ some x)
          × (tree.find x.policy_id s.policy_tree ≡ some policy)
    in_force_cases s k at policy e =
        let (_, t, i) = get_or_create_flow s.flow_classifier s.flow_table k at.context in
        elim (Option-cases (lookup i t)) [
          | inl n ↦ absurd (ground (arith, e, n))
          | inr (x, f) ↦ (x, f, ground (arith, e, f))
        ]

    -- With a tree that meets the laws, when the flow has a policy, the call returns whether to
    -- enqueue the packet: it drops a red packet of a policy that drops on red, and nothing else.
    -- The packet leaves with its flow's id and its colour, and with the priority the policy has for
    -- that colour unless it is dropped. The tree then holds the policy with its buckets charged.
    pub process_packet_shapes :
        (s : TrafficShaper T) (packet : PacketDescriptor) (k : FiveTuple) (at : Readings)
        (policy : ShapingPolicy)
        → policy_in_force s k at ≡ some policy
        → let (policy', level) = apply_token_buckets packet policy at in
          let (s', p, r) = process_packet s packet k at in
          let (_, _, i) = get_or_create_flow s.flow_classifier s.flow_table k at.context in
          let drop_this_packet = is_red level && policy.drop_on_red in
          (r ≡ ok (not drop_this_packet))
          × (p ≡ record packet {
            flow_id = i;
            conformance = level;
            priority = if drop_this_packet then packet.priority else target_priority policy level;
          })
          × (tree.find policy.id s'.policy_tree ≡ some policy')
    unfolding apply_token_buckets
    process_packet_shapes s packet k at policy e =
        let (c, t, i) = get_or_create_flow s.flow_classifier s.flow_table k at.context in
        let (x, f, g) = in_force_cases s k at policy e in
        let s' = record s { flow_classifier = c; flow_table = t } in
        let p = record packet { flow_id = i } in
        let level = (apply_token_buckets packet policy at).1 in
        let (a, b, own, _) = shape_known s' p x.policy_id policy at g in
        rw (process_packet_finds s packet k at policy x f g)
          (a, b ∙ mark_fields p policy level, own)

    -- With a tree that meets the laws, when the flow has a policy, the call changes no policy with
    -- another id.
    pub process_packet_others :
        (s : TrafficShaper T) (packet : PacketDescriptor) (k : FiveTuple) (at : Readings)
        (policy : ShapingPolicy) (j : ℕ)
        → policy_in_force s k at ≡ some policy
        → j ≢ policy.id
        → tree.find j (process_packet s packet k at).0.policy_tree ≡ tree.find j s.policy_tree
    process_packet_others s packet k at policy j e differs =
        let (c, t, i) = get_or_create_flow s.flow_classifier s.flow_table k at.context in
        let (x, f, g) = in_force_cases s k at policy e in
        let s' = record s { flow_classifier = c; flow_table = t } in
        let p = record packet { flow_id = i } in
        let (_, _, _, others) = shape_known s' p x.policy_id policy at g in
        rw (process_packet_finds s packet k at policy x f g) (others j differs)

  -- With flows that are classified and an id left, when the policy of the flow is not in the tree,
  -- the packet leaves with its flow's id, is coloured red and is not to be enqueued, and the
  -- policies stay as they were.
  pub process_packet_unknown :
      (s : TrafficShaper T) (packet : PacketDescriptor) (k : FiveTuple) (at : Readings)
      → IsClassified s.flow_classifier s.flow_table
      → s.flow_classifier.next_flow_id + 1 < 2 ^ 64
      → policy_in_force s k at ≡ none
      → let (c, t, i) = get_or_create_flow s.flow_classifier s.flow_table k at.context in
        process_packet s packet k at ≡ (
          record s { flow_classifier = c; flow_table = t },
          record packet { flow_id = i; conformance = red },
          ok false,
        )
  unfolding process_packet apply_policy
  process_packet_unknown s packet k at v room e =
      let t = (get_or_create_flow s.flow_classifier s.flow_table k at.context).1 in
      let i = (get_or_create_flow s.flow_classifier s.flow_table k at.context).2 in
      let (_, _, (x, f)) =
        get_or_create_flow-IsClassified s.flow_classifier s.flow_table k at.context v room in
      let g : tree.find x.policy_id s.policy_tree ≡ none = ground (arith, e, f) in
      rw (f, g, process_packet, apply_policy) refl

  -- With a tree that meets the laws, and flows that are classified with an id left,
  -- `process_packet` never throws, and keeps the flows classified: ids distinct, below the next
  -- one, and known to the flow table.
  pub process_packet_total :
      (laws : IsIndexed T) (s : TrafficShaper T) (packet : PacketDescriptor) (k : FiveTuple)
      (at : Readings)
      → IsClassified s.flow_classifier s.flow_table
      → s.flow_classifier.next_flow_id + 1 < 2 ^ 64
      → let (s', _, r) = process_packet s packet k at in
        ((answer : Bool) × (r ≡ ok answer)) × IsClassified s'.flow_classifier s'.flow_table
  unfolding shape
  process_packet_total laws s packet k at v room =
      let (w, _, _) =
        get_or_create_flow-IsClassified s.flow_classifier s.flow_table k at.context v room in
      elim (Option-cases (policy_in_force s k at)) [
        | inl e ↦ rw (process_packet_unknown s packet k at v room e) ((false, refl), w)
        | inr (policy, e) ↦
            let (x, f, g) = in_force_cases laws s k at policy e in
            let (r, _, _) = process_packet_shapes laws s packet k at policy e in
            ((_, r), rw (process_packet_finds laws s packet k at policy x f g) w)
      ]
