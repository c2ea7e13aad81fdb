-- ===== src/Pipeline/RoundTrip.antt =====
-- A packet on its way through the pipeline, with the strict priority scheduler.
use hqts.Base.{ℕ, ◌≡◌, ap, ◌⊎◌, inl, inr, true, false, ◌&&◌, some, List, Result, ok}
use hqts.Packet.{PacketDescriptor}
use hqts.Policy.{ShapingPolicy}
use hqts.Policy.Tree.{PolicyTree, IsIndexed}
use hqts.Flow.Identifier.{FiveTuple}
use hqts.Flow.Classifier.{get_or_create_flow}
use hqts.Aqm.Interface.{AqmQueue}
use hqts.Shaper.{Readings, apply_token_buckets, is_red, target_priority, process_packet}
use hqts.Shaper.Process.{policy_in_force}
use hqts.Scheduler.StrictPriority.{StrictPriorityScheduler, enqueue}
use hqts.Scheduler.StrictPriority.Invariant.{packets, IsLevelled}
use hqts.Scheduler.StrictPriority.Order.{strict_priority, stores}
use hqts.Scheduler.StrictPriority.Preempt.{NoneAbove, dequeue-enqueue}
use hqts.Pipeline.{PacketPipeline, incoming, handle_incoming_packet, get_next_packet_to_transmit}
use hqts.Pipeline.Delivery.{handle_incoming_packet_delivers, next_held}

module _ {T Q : Type 0} ⦃tree : PolicyTree T⦄ ⦃a : AqmQueue Q⦄ where
  -- The packet that the scheduler is given for a call, by a policy.
  abbrev pub shaped :
      PacketPipeline T (StrictPriorityScheduler Q)
      → FiveTuple
      → ℕ
      → List ℕ
      → Readings
      → ShapingPolicy
      → PacketDescriptor
  shaped s k n payload at policy =
      let level = (apply_token_buckets (incoming n payload) policy at).1 in
      record {
        flow_id = (get_or_create_flow s.shaper.flow_classifier s.shaper.flow_table k at.context).2;
        packet_length_bytes = n;
        priority = target_priority policy level;
        conformance = level;
        payload = payload;
      }

  -- With a tree that meets the laws, when the flow has a policy, the packet is not a red one that the
  -- policy drops, and no packet waits in the consistent scheduler at the level that the policy gives
  -- it or above: where that level exists and its queue accepts the packet,
  -- `get_next_packet_to_transmit` returns this packet and the scheduler then holds what it held
  -- before; where not, the scheduler holds what it held before already after
  -- `handle_incoming_packet`.
  pub get_next-handle_incoming :
      (laws : IsIndexed T) (s : PacketPipeline T (StrictPriorityScheduler Q)) (k : FiveTuple)
      (n : ℕ) (payload : List ℕ) (at : Readings) (policy : ShapingPolicy)
      → policy_in_force s.shaper k at ≡ some policy
      → (is_red (apply_token_buckets (incoming n payload) policy at).1 && policy.drop_on_red)
        ≡ false
      → IsLevelled s.scheduler
      → NoneAbove s.scheduler (shaped s k n payload at policy).priority
      → let t = (handle_incoming_packet s k n payload at).0 in
        ((stores s.scheduler (shaped s k n payload at policy) ≡ false)
          × (packets t.scheduler ≡ packets s.scheduler))
        ⊎ ((stores s.scheduler (shaped s k n payload at policy) ≡ true)
            × ((get_next_packet_to_transmit t).1 ≡ ok (shaped s k n payload at policy))
            × (packets (get_next_packet_to_transmit t).0.scheduler ≡ packets s.scheduler))
  get_next-handle_incoming laws s k n payload at policy e kept v above =
      let handled = handle_incoming_packet_delivers laws s k n payload at policy e in
      let p = shaped s k n payload at policy in
      let u : PacketPipeline T (StrictPriorityScheduler Q) = record {
        shaper = (process_packet s.shaper (incoming n payload) k at).0;
        scheduler = (enqueue s.scheduler p).0;
      } in
      let step : (handle_incoming_packet s k n payload at).0 ≡ u =
        ap (λ (r : PacketPipeline T (StrictPriorityScheduler Q) × Result (Unit {0})). r.0)
          (rw kept at handled) in
      elim (dequeue-enqueue s.scheduler p v above) [
        | inl (refused, same) ↦ inl (refused, rw step same)
        | inr (kept, sent, left, held) ↦
            let transmitted = next_held u (ap ok held) in
            inr (kept, rw (step, transmitted) sent, rw (step, transmitted) left)
      ]
