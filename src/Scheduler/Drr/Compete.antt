-- ===== src/Scheduler/Drr/Compete.antt =====
-- Calls of the DRR scheduler in a row, and the bytes that two queues of it send meanwhile.
use native.Mathlib.Nat.{mul-add}
use hqts.Base.{
  ℕ, ◌+◌, ◌-◌, ◌*◌, ◌<◌, ◌≡◌, refl, ap, ◌∙◌, inl, inr, Option, none, some, length, length-set,
  lookup, get_elem?, get_elem?-total, get_elem?-set_cases, Option-cases, arith,
}
use hqts.Packet.{PacketDescriptor}
use hqts.Aqm.Interface.{AqmQueue}
use hqts.Scheduler.Drr.Invariant.{contents_of, IsQuantized}
use hqts.Scheduler.Drr.Order.{enqueue_known, enqueue_unknown}
use hqts.Scheduler.Drr.Rounds.{visits}
use hqts.Scheduler.Drr.Equal.{backlog}
use hqts.Scheduler.Drr.Account.{bytes_in, IsTurn}
use hqts.Scheduler.Drr.{DrrScheduler, InternalQueueState, enqueue, enqueue_in, dequeue}

module _ {Q : Type 0} ⦃a : AqmQueue Q⦄ where
  abbrev pub bytes_at : Option (InternalQueueState Q) → ℕ
  bytes_at none = 0
  bytes_at (some q) = bytes_in q

  -- The bytes that wait in queue `k`.
  abbrev pub bytes : DrrScheduler Q → ℕ → ℕ
  bytes s k = bytes_at (get_elem? s.queues k)

  -- The bytes that the next call of `dequeue` takes from queue `k`.
  abbrev pub bytes_taken : DrrScheduler Q → ℕ → ℕ
  bytes_taken s k = bytes s k - bytes (dequeue s).0 k

  -- Calls in any order from `s` on, with a packet waiting in both queues `i` and `j` at each
  -- `dequeue`; together they take `m` bytes from `i` and `n` from `j`.
  pub data Compete (i j : ℕ) (s : DrrScheduler Q) : ℕ → ℕ → DrrScheduler Q → Type 0 where
    started : Compete i j s 0 0 s
    stored :
        {m n : ℕ} {t : DrrScheduler Q} (p : PacketDescriptor)
        → Compete i j s m n t
        → Compete i j s m n (enqueue t p).0
    called :
        {m n : ℕ} {t : DrrScheduler Q}
        → 0 < backlog t i
        → 0 < backlog t j
        → Compete i j s m n t
        → Compete i j s (m + bytes_taken t i) (n + bytes_taken t j) (dequeue t).0

  -- Queue `k` has quantum `w`, and has paid for `m` bytes out of `d` and `x` quanta.
  pub record HasPaid (t : DrrScheduler Q) (k w d m x : ℕ) : Type 0 where
    pub queue : InternalQueueState Q
    pub found : get_elem? t.queues k ≡ some queue
    pub quantum : queue.quantum_bytes ≡ w
    pub paid : m + queue.deficit_counter ≡ d + w * x

  -- `enqueue` leaves the turn, and the quantum and the deficit of every queue.
  pub enqueue_keeps :
      (t : DrrScheduler Q) (p : PacketDescriptor)
      → IsQuantized t
      → ((enqueue t p).0.current_queue_index ≡ t.current_queue_index)
        × (length (enqueue t p).0.queues ≡ length t.queues)
        × ((k w d m x : ℕ) → HasPaid t k w d m x → HasPaid (enqueue t p).0 k w d m x)
  unfolding enqueue_in
  enqueue_keeps t p v = elim (Option-cases (lookup p.priority t.queue_id_to_index)) [
    | inl e ↦ rw (enqueue_unknown t p v e) (refl, refl, λ k w d m x h. h)
    | inr (i, e) ↦
        let (q, g) = get_elem?-total t.queues i (v.mapped p.priority i e) in
        let q' : InternalQueueState Q = record q {
          packet_queue = (a.enqueue q.packet_queue p).0;
        } in
        rw (enqueue_known t p i q v e g) (
          refl,
          length-set t.queues i q',
          λ k w d m x h. elim (get_elem?-set_cases t.queues i k q' g h.found) [
            | inl (same, one, here) ↦ record {
              queue = q';
              found = here;
              quantum = rw one h.quantum;
              paid = rw one h.paid;
            }
            | inr (ne, other) ↦ record {
              queue = h.queue;
              found = other;
              quantum = h.quantum;
              paid = h.paid;
            }
          ],
        )
  ]

  pub turn-HasPaid :
      (t u : DrrScheduler Q) (k w d m x r : ℕ)
      → IsTurn t u r
      → 0 < backlog t k
      → HasPaid t k w d m x
      → HasPaid u k w d
          (m + (bytes t k - bytes u k))
          (x + visits t.current_queue_index (length t.queues) r k)
  turn-HasPaid t u k w d m x r turn held h =
      let here : backlog t k ≡ length (contents_of h.queue) = rw h.found refl in
      let (q, g, step) = turn.each k h.queue h.found (omega (arith, here)) in
      let before : bytes t k ≡ bytes_in h.queue = rw h.found refl in
      let after : bytes u k ≡ bytes_in q = rw g refl in
      let more = visits t.current_queue_index (length t.queues) r k in
      record {
        queue = q;
        found = g;
        quantum = step.quantum ∙ h.quantum;
        paid = omega (
          arith,
          before,
          after,
          h.paid,
          step.paid,
          step.fewer,
          mul-add w x more,
          ap (λ (y : ℕ). y * more) h.quantum,
        );
      }
