-- ===== src/Scheduler/Drr/Invariant.antt =====
-- The state of the DRR scheduler between calls, and what storing, sending and waiting do to it.
use mathlib.Core.List.{Perm}
use hqts.Base.{
  ℕ, ◌+◌, ◌-◌, ◌<◌, ◌≡◌, refl, inl, inr, true, List, ◌∷◌, some, length, get_elem?, set, length-set,
  arith, lookup, Bool-cases,
}
use hqts.Packet.{PacketDescriptor}
use hqts.Aqm.Interface.{AqmQueue}
use hqts.Scheduler.Bank.{
  all_packets, all_packets-set_same, all_packets-set_push, all_packets-set_pop, length-Perm,
}
use hqts.Scheduler.Interface.{AddsIf}
use hqts.Scheduler.Drr.{DrrScheduler, InternalQueueState, enqueue_in, next_index}

module _ {Q : Type 0} ⦃a : AqmQueue Q⦄ where
  abbrev pub contents_of : InternalQueueState Q → List PacketDescriptor
  contents_of q = a.contents q.packet_queue

  abbrev pub packets : DrrScheduler Q → List PacketDescriptor
  packets s = all_packets contents_of s.queues

  pub record IsQuantized (s : DrrScheduler Q) : Type 0 where
    pub configured : s.is_configured ≡ true
    pub index : s.current_queue_index < length s.queues
    pub total : s.total_packets ≡ length (packets s)
    pub mapped : (k i : ℕ) → lookup k s.queue_id_to_index ≡ some i → i < length s.queues

  -- The current queue, in state `q`, after its quantum.
  abbrev pub topped_up : InternalQueueState Q → InternalQueueState Q
  topped_up q = record q { deficit_counter = q.deficit_counter + q.quantum_bytes }

  -- The state after the current queue, in state `q`, has sent a packet of `len` bytes.
  abbrev pub sent : DrrScheduler Q → InternalQueueState Q → ℕ → DrrScheduler Q
  sent s q len = record s {
    queues = set s.queues s.current_queue_index (record q {
      packet_queue = (a.dequeue q.packet_queue).0;
      deficit_counter = q.deficit_counter + q.quantum_bytes - len;
    });
    total_packets = s.total_packets - 1;
    current_queue_index = next_index s;
  }

  -- The state after the current queue has had its quantum and could not send.
  abbrev pub waited : DrrScheduler Q → InternalQueueState Q → DrrScheduler Q
  waited s q = record s {
    queues = set s.queues s.current_queue_index (topped_up q);
    current_queue_index = next_index s;
  }

  -- The state after an empty queue was passed over.
  abbrev pub passed : DrrScheduler Q → DrrScheduler Q
  passed s = record s { current_queue_index = next_index s }

  pub sent_lem :
      (s : DrrScheduler Q) (q : InternalQueueState Q) (p : PacketDescriptor)
      (ps : List PacketDescriptor)
      → IsQuantized s
      → get_elem? s.queues s.current_queue_index ≡ some q
      → contents_of q ≡ p ∷ ps
      → let t = sent s q p.packet_length_bytes in IsQuantized t × Perm (packets s) (p ∷ packets t)
  sent_lem s q p ps v g e =
      let w : InternalQueueState Q = record q {
        packet_queue = (a.dequeue q.packet_queue).0;
        deficit_counter = q.deficit_counter + q.quantum_bytes - p.packet_length_bytes;
      } in
      let same = (a.dequeue_first q.packet_queue p ps e).1 in
      let perm =
        all_packets-set_pop contents_of s.queues s.current_queue_index q w p g (rw same e) in
      let len = length-set s.queues s.current_queue_index w in
      (
        record {
          configured = v.configured;
          index = omega (arith, len, v.index);
          total = omega (arith, v.total, length-Perm perm);
          mapped = λ j i h. omega (arith, len, v.mapped j i h);
        },
        perm,
      )

  pub waited_lem :
      (s : DrrScheduler Q) (q : InternalQueueState Q)
      → IsQuantized s
      → get_elem? s.queues s.current_queue_index ≡ some q
      → IsQuantized (waited s q) × (packets (waited s q) ≡ packets s)
  waited_lem s q v g =
      let w : InternalQueueState Q = topped_up q in
      let same = all_packets-set_same contents_of s.queues s.current_queue_index q w g refl in
      let len = length-set s.queues s.current_queue_index w in
      (
        record {
          configured = v.configured;
          index = omega (arith, len, v.index);
          total = rw same v.total;
          mapped = λ j i h. omega (arith, len, v.mapped j i h);
        },
        same,
      )

  pub passed_lem : (s : DrrScheduler Q) → IsQuantized s → IsQuantized (passed s)
  passed_lem s v = record {
    configured = v.configured;
    index = omega (arith, v.index);
    total = v.total;
    mapped = v.mapped;
  }

  -- Storing in queue `k`: the packet is added, or nothing is.
  pub enqueue_in_lem :
      (s : DrrScheduler Q) (k : ℕ) (p : PacketDescriptor) (q : InternalQueueState Q)
      → get_elem? s.queues k ≡ some q
      → IsQuantized s
      → IsQuantized (enqueue_in s k p (some q)).0
        × AddsIf
            (a.enqueue q.packet_queue p).1
            (packets s)
            p
            (packets (enqueue_in s k p (some q)).0)
  unfolding enqueue_in
  enqueue_in_lem s k p q g v =
      let w : InternalQueueState Q = record q { packet_queue = (a.enqueue q.packet_queue p).0 } in
      let len = length-set s.queues k w in
      elim (Bool-cases (a.enqueue q.packet_queue p).1) [
        | inl e ↦
            let perm =
              all_packets-set_push contents_of s.queues k q w p g
                (rw e at (a.contents-enqueue q.packet_queue p)) in
            (
              record {
                configured = v.configured;
                index = omega (arith, len, v.index);
                total = rw e (omega (arith, v.total, length-Perm perm));
                mapped = λ j i h. omega (arith, len, v.mapped j i h);
              },
              rw e perm,
            )
        | inr e ↦
            let same =
              all_packets-set_same contents_of s.queues k q w g
                (rw e at (a.contents-enqueue q.packet_queue p)) in
            (
              record {
                configured = v.configured;
                index = omega (arith, len, v.index);
                total = rw (e, same) v.total;
                mapped = λ j i h. omega (arith, len, v.mapped j i h);
              },
              rw e same,
            )
      ]
