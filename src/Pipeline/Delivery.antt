-- ===== src/Pipeline/Delivery.antt =====
-- What one call of the pipeline hands to the scheduler, and what it takes from it.
use hqts.Base.{
  ℕ, ◌≡◌, refl, ap, ◌∙◌, ◌⊎◌, inl, inr, Bool, true, false, not, ◌&&◌, some, List, [], ◌∷◌, null,
  List-cases, if◌then◌else◌, Result, ok,
}
use hqts.Packet.{PacketDescriptor, packet_descriptor, empty_packet, green}
use hqts.Policy.{ShapingPolicy}
use hqts.Policy.Tree.{PolicyTree, IsIndexed}
use hqts.Flow.Identifier.{FiveTuple}
use hqts.Flow.Classifier.{get_or_create_flow}
use hqts.Shaper.{Readings, apply_token_buckets, is_red, target_priority, process_packet}
use hqts.Shaper.Process.{policy_in_force, process_packet_shapes}
use hqts.Scheduler.Interface.{Scheduler, IsScheduler, TakesOrFails}
use hqts.Pipeline.{
  PacketPipeline, incoming, deliver, transmit, handle_incoming_packet, get_next_packet_to_transmit,
}

incoming_fields :
    (n : ℕ) (payload : List ℕ)
    → incoming n payload ≡ record {
      flow_id = 0;
      packet_length_bytes = n;
      priority = 0;
      conformance = green;
      payload = payload;
    }
unfolding incoming packet_descriptor
incoming_fields n [] = refl
incoming_fields n (x ∷ xs) = refl

module _ {T S : Type 0} ⦃tree : PolicyTree T⦄ ⦃scheduling : Scheduler S⦄ where
  -- The end of a call, when the answer and the packet are known up to whether it is dropped.
  settle :
      (s : PacketPipeline T S) (p : PacketDescriptor) (r : Result Bool) (drop : Bool)
      (leaving : Bool → PacketDescriptor)
      → r ≡ ok (not drop)
      → p ≡ leaving drop
      → deliver s p r ≡ (
          if drop
          then (s, ok tt)
          else (let (q, a) = scheduling.enqueue s.scheduler (leaving false) in
              (record s { scheduler = q }, a)))
  unfolding deliver
  settle s p r true leaving e f = rw e refl
  settle s p r false leaving e f = rw (e, f) refl

  -- With a tree that meets the laws, when the flow has a policy, `handle_incoming_packet` gives the
  -- scheduler one packet, with the flow's id, the length and the payload of the call, the colour of
  -- the policy's buckets and the policy's priority for that colour; except for a red packet of a
  -- policy that drops on red, which is dropped with the scheduler untouched.
  pub handle_incoming_packet_delivers :
      (laws : IsIndexed T) (s : PacketPipeline T S) (k : FiveTuple) (n : ℕ) (payload : List ℕ)
      (at : Readings) (policy : ShapingPolicy)
      → policy_in_force s.shaper k at ≡ some policy
      → let c = s.shaper.flow_classifier in
        let shaper' = (process_packet s.shaper (incoming n payload) k at).0 in
        let level = (apply_token_buckets (incoming n payload) policy at).1 in
        let packet : PacketDescriptor = record {
          flow_id = (get_or_create_flow c s.shaper.flow_table k at.context).2;
          packet_length_bytes = n;
          priority = target_priority policy level;
          conformance = level;
          payload = payload;
        } in
        let (q, r) = scheduling.enqueue s.scheduler packet in
        handle_incoming_packet s k n payload at ≡ (
          if is_red level && policy.drop_on_red
          then (record s { shaper = shaper' }, ok tt)
          else (record { shaper = shaper'; scheduler = q }, r))
  unfolding handle_incoming_packet deliver
  handle_incoming_packet_delivers laws s k n payload at policy e =
      let (r, p, _) = process_packet_shapes laws s.shaper (incoming n payload) k at policy e in
      let level = (apply_token_buckets (incoming n payload) policy at).1 in
      let c = s.shaper.flow_classifier in
      let i = (get_or_create_flow c s.shaper.flow_table k at.context).2 in
      let shaper' = (process_packet s.shaper (incoming n payload) k at).0 in
      let leaving = λ (d : Bool) (x : PacketDescriptor). record x {
        flow_id = i;
        conformance = level;
        priority = if d then x.priority else target_priority policy level;
      } in
      let drop = is_red level && policy.drop_on_red in
      settle (record s { shaper = shaper' }) _ _ drop
        (λ d. record {
          flow_id = i;
          packet_length_bytes = n;
          priority = if d then 0 else target_priority policy level;
          conformance = level;
          payload = payload;
        })
        r (p ∙ ap (leaving drop) (incoming_fields n payload))

  pub next_empty :
      (s : PacketPipeline T S)
      → scheduling.is_empty s.scheduler ≡ ok true
      → get_next_packet_to_transmit s ≡ (s, ok empty_packet)
  unfolding get_next_packet_to_transmit transmit
  next_empty s e = rw e refl

  pub next_held :
      (s : PacketPipeline T S)
      → scheduling.is_empty s.scheduler ≡ ok false
      → get_next_packet_to_transmit s ≡ (
        record s { scheduler = (scheduling.dequeue s.scheduler).0 },
        (scheduling.dequeue s.scheduler).1,
      )
  unfolding get_next_packet_to_transmit transmit
  next_held s e = rw e refl

  -- On a scheduler that meets the contract and whose invariant holds, `get_next_packet_to_transmit`
  -- returns the empty packet and changes nothing when no packet is held; otherwise it takes one of
  -- the packets held and returns it, or throws and keeps them all. It keeps the invariant.
  pub get_next_packet_to_transmit_lem :
      (laws : IsScheduler S) (s : PacketPipeline T S)
      → laws.Inv s.scheduler
      → (((laws.packets s.scheduler ≡ []) × (get_next_packet_to_transmit s ≡ (s, ok empty_packet)))
          ⊎ ((null (laws.packets s.scheduler) ≡ false)
              × TakesOrFails
                  (laws.packets s.scheduler)
                  (get_next_packet_to_transmit s).1
                  (laws.packets (get_next_packet_to_transmit s).0.scheduler)))
        × laws.Inv (get_next_packet_to_transmit s).0.scheduler
  get_next_packet_to_transmit_lem laws s v =
      let e = laws.is_empty_lem s.scheduler v in
      elim (List-cases (laws.packets s.scheduler)) [
        | inl f ↦
            let g = next_empty s (e ∙ ap (λ (ps : List PacketDescriptor). ok (null ps)) f) in
            (inl (f, g), rw g v)
        | inr (p, ps, f) ↦
            let g = next_held s (e ∙ ap (λ (x : List PacketDescriptor). ok (null x)) f) in
            (
              inr (
                ap (λ (x : List PacketDescriptor). null x) f,
                rw g (laws.packets-dequeue s.scheduler v),
              ),
              rw g (laws.dequeue-Inv s.scheduler v),
            )
      ]
