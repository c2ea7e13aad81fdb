-- ===== src/Scheduler/Wrr/Invariant.antt =====
-- The state of the WRR scheduler between calls, and what serving, storing and replenishing do to it.
use mathlib.Core.List.{Perm}
use hqts.Base.{
  ℕ, ◌+◌, ◌-◌, ◌%◌, ◌^◌, ◌<◌, ◌≡◌, refl, inl, inr, true, false, List, [], ◌∷◌, some, length,
  get_elem?, set, length-set, All, All-set, All-map, All-mono, All-get_elem?, length-map, ok, arith,
  lookup, Bool-cases, List-cases,
}
use hqts.Base.Int.{pos, ◌+ℤ◌, ◌-ℤ◌, ◌≤ℤ◌, ltb_ℤ}
use hqts.Packet.{PacketDescriptor}
use hqts.Aqm.Interface.{AqmQueue}
use hqts.Scheduler.Bank.{
  all_packets, all_packets-set_same, all_packets-set_push, all_packets-set_pop, all_packets-map,
  length-Perm,
}
use hqts.Scheduler.Interface.{AddsIf}
use hqts.Scheduler.Wrr.{
  WrrScheduler, InternalQueueState, replenish, replenish_all_deficits, enqueue_in, serve, can_send,
}

-- A weight that `int32_t` holds, and a deficit that is not negative.
pub record IsCharged {Q : Type 0} (q : InternalQueueState Q) : Type 0 where
  pub weight_pos : 0 < q.weight
  pub weight_fits : q.weight < 2 ^ 31
  pub deficit : pos 0 ≤ℤ q.current_deficit

module _ {Q : Type 0} ⦃a : AqmQueue Q⦄ where
  abbrev pub contents_of : InternalQueueState Q → List PacketDescriptor
  contents_of q = a.contents q.packet_queue

  abbrev pub packets : WrrScheduler Q → List PacketDescriptor
  packets s = all_packets contents_of s.queues

  pub record IsWeighted (s : WrrScheduler Q) : Type 0 where
    pub configured : s.is_configured ≡ true
    pub index : s.current_queue_index < length s.queues
    pub total : s.total_packets ≡ length (packets s)
    pub mapped : (k i : ℕ) → lookup k s.queue_id_to_index ≡ some i → i < length s.queues
    pub charged : All IsCharged s.queues

  -- The state after queue `k`, in state `q`, has sent a packet.
  abbrev pub sent : WrrScheduler Q → ℕ → InternalQueueState Q → WrrScheduler Q
  sent s k q = record s {
    queues = set s.queues k (record q {
      packet_queue = (a.dequeue q.packet_queue).0;
      current_deficit = q.current_deficit -ℤ pos 1;
    });
    total_packets = s.total_packets - 1;
    current_queue_index = (k + 1) % length s.queues;
  }

  pub serve_lem :
      (s : WrrScheduler Q) (k : ℕ) (q : InternalQueueState Q) (p : PacketDescriptor)
      (ps : List PacketDescriptor)
      → contents_of q ≡ p ∷ ps
      → serve s k q ≡ (sent s k q, ok p)
  unfolding serve
  serve_lem s k q p ps e =
      let (first, _) = a.dequeue_first q.packet_queue p ps e in rw (first, serve)

  -- A queue that can send holds a packet and has a positive deficit.
  pub can_send_lem :
      (q : InternalQueueState Q)
      → can_send q ≡ true
      → ((p : PacketDescriptor) × (ps : List PacketDescriptor) × (contents_of q ≡ p ∷ ps))
        × (ltb_ℤ (pos 0) q.current_deficit ≡ true)
  can_send_lem q h = elim (List-cases (contents_of q)) [
    | inl e ↦
        let full : a.is_empty q.packet_queue ≡ true = rw (a.is_empty_lem q.packet_queue, e) in
        ground arith
    | inr (p, ps, e) ↦ ((p, ps, e), ground arith)
  ]

  sent-IsCharged :
      (q : InternalQueueState Q)
      → IsCharged q
      → ltb_ℤ (pos 0) q.current_deficit ≡ true
      → IsCharged (record q {
        packet_queue = (a.dequeue q.packet_queue).0;
        current_deficit = q.current_deficit -ℤ pos 1;
      })
  unfolding ◌-ℤ◌
  sent-IsCharged q v h = record {
    weight_pos = v.weight_pos;
    weight_fits = v.weight_fits;
    deficit = ground (arith, v.deficit);
  }

  pub sent_lem :
      (s : WrrScheduler Q) (k : ℕ) (q : InternalQueueState Q) (p : PacketDescriptor)
      (ps : List PacketDescriptor)
      → IsWeighted s
      → get_elem? s.queues k ≡ some q
      → can_send q ≡ true
      → contents_of q ≡ p ∷ ps
      → IsWeighted (sent s k q) × Perm (packets s) (p ∷ packets (sent s k q))
  sent_lem s k q p ps v g ready e =
      let w : InternalQueueState Q = record q {
        packet_queue = (a.dequeue q.packet_queue).0;
        current_deficit = q.current_deficit -ℤ pos 1;
      } in
      let same = (a.dequeue_first q.packet_queue p ps e).1 in
      let perm = all_packets-set_pop contents_of s.queues k q w p g (rw same e) in
      let len = length-set s.queues k w in
      (
        record {
          configured = v.configured;
          index = omega (arith, len, v.index);
          total = omega (arith, v.total, length-Perm perm);
          mapped = λ j i h. omega (arith, len, v.mapped j i h);
          charged = All-set IsCharged s.queues k w v.charged (
              sent-IsCharged q (All-get_elem? IsCharged s.queues k v.charged g)
                (can_send_lem q ready).1);
        },
        perm,
      )

  replenish-IsCharged :
      (q : InternalQueueState Q)
      → IsCharged q
      → IsCharged (replenish q) × (ltb_ℤ (pos 0) (replenish q).current_deficit ≡ true)
  unfolding ◌+ℤ◌
  replenish-IsCharged q v =
      let w = v.weight_pos in
      let f = v.weight_fits in
      let d = v.deficit in
      (record { weight_pos = w; weight_fits = f; deficit = ground arith }, ground arith)

  pub packets-replenish_all_deficits :
      (s : WrrScheduler Q) → packets (replenish_all_deficits s) ≡ packets s
  unfolding replenish_all_deficits
  packets-replenish_all_deficits s = all_packets-map contents_of replenish (λ q. refl) s.queues

  pub replenish_all_deficits-IsWeighted :
      (s : WrrScheduler Q) → IsWeighted s → IsWeighted (replenish_all_deficits s)
  unfolding replenish_all_deficits
  replenish_all_deficits-IsWeighted s v =
      let len = length-map replenish s.queues in
      record {
        configured = v.configured;
        index = omega (arith, len, v.index);
        total = rw (all_packets-map contents_of replenish (λ q. refl) s.queues) v.total;
        mapped = λ k i h. omega (arith, len, v.mapped k i h);
        charged = All-map replenish IsCharged s.queues (
            All-mono IsCharged (λ q. IsCharged (replenish q)) s.queues
              (λ q c. (replenish-IsCharged q c).0) v.charged);
      }

  -- Once replenished, a queue that cannot send holds no packet.
  pub idle_replenished :
      (s : WrrScheduler Q) (k : ℕ) (q : InternalQueueState Q)
      → IsWeighted s
      → get_elem? s.queues k ≡ some q
      → can_send (replenish q) ≡ false
      → contents_of q ≡ []
  idle_replenished s k q v g h =
      let (_, full) = replenish-IsCharged q (All-get_elem? IsCharged s.queues k v.charged g) in
      elim (List-cases (contents_of q)) [
        | inl e ↦ e
        | inr (p, ps, e) ↦
            let held : a.is_empty q.packet_queue ≡ false = rw (a.is_empty_lem q.packet_queue, e) in
            ground arith
      ]

  -- Storing in queue `k`: the packet is added, or nothing is.
  pub enqueue_in_lem :
      (s : WrrScheduler Q) (k : ℕ) (p : PacketDescriptor) (q : InternalQueueState Q)
      → get_elem? s.queues k ≡ some q
      → IsWeighted s
      → IsWeighted (enqueue_in s k p (some q)).0
        × AddsIf
            (a.enqueue q.packet_queue p).1
            (packets s)
            p
            (packets (enqueue_in s k p (some q)).0)
  unfolding enqueue_in
  enqueue_in_lem s k p q g v =
      let w : InternalQueueState Q = record q { packet_queue = (a.enqueue q.packet_queue p).0 } in
      let len = length-set s.queues k w in
      let old = All-get_elem? IsCharged s.queues k v.charged g in
      let c = All-set IsCharged s.queues k w v.charged (record {
        weight_pos = old.weight_pos;
        weight_fits = old.weight_fits;
        deficit = old.deficit;
      }) in
      elim (Bool-cases (a.enqueue q.packet_queue p).1) [
        | inl e ↦
            let perm =
              all_packets-set_push contents_of s.queues k q w p g
                (rw e at (a.contents-enqueue q.packet_queue p)) in
            (
              record {
                configured = v.configured;
                index = omega (arith, len, v.index);
                total = rw e (omega (arith, v.total, length-Perm perm));
                mapped = λ j i h. omega (arith, len, v.mapped j i h);
                charged = c;
              },
              rw e perm,
            )
        | inr e ↦
            let same =
              all_packets-set_same contents_of s.queues k q w g
                (rw e at (a.contents-enqueue q.packet_queue p)) in
            (
              record {
                configured = v.configured;
                index = omega (arith, len, v.index);
                total = rw (e, same) v.total;
                mapped = λ j i h. omega (arith, len, v.mapped j i h);
                charged = c;
              },
              rw e same,
            )
      ]
