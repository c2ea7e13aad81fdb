-- ===== src/Scheduler/Drr/Account.antt =====
-- What one call of `dequeue` of the DRR scheduler does to the deficit of a queue, against the bytes
-- that it sends from the queue.
pub mod Search
use native.Mathlib.Decide.{ℕ_discrete}
use native.Mathlib.Nat.{mul-add, mod-add-mod, mod-eq_of_lt}
use mathlib.Core.Option.{some-injective}
use hqts.Base.{
  ℕ, zero, suc, ◌+◌, ◌-◌, ◌*◌, ◌%◌, ◌≤◌, ◌<◌, ◌≡◌, ◌≢◌, refl, sym, ap, subst, ◌∙◌, List, [], ◌∷◌,
  some, length, length-set, get_elem?, get_elem?-set_cases, inl, inr, set, Result, arith,
}
use hqts.Packet.{PacketDescriptor}
use hqts.Aqm.Bytes.{total_bytes}
use hqts.Aqm.Interface.{AqmQueue}
use hqts.Scheduler.Drr.Invariant.{
  contents_of, IsQuantized, topped_up, sent, waited, passed, waited_lem, passed_lem,
}
use hqts.Scheduler.Drr.Rounds.{
  visits, visits_none, visits_here, visits_away, visits_one_here, visits_one_away, turn_add,
}
use hqts.Scheduler.Drr.{DrrScheduler, InternalQueueState, search, dequeue}

module _ {Q : Type 0} ⦃a : AqmQueue Q⦄ where
  -- The bytes that wait in a queue.
  abbrev pub bytes_in : InternalQueueState Q → ℕ
  bytes_in q = total_bytes (contents_of q)

  -- Queue `q` became `q'` in a call that came to it `x` times: what was sent was paid for.
  pub record IsPaid (q q' : InternalQueueState Q) (x : ℕ) : Type 0 where
    pub quantum : q'.quantum_bytes ≡ q.quantum_bytes
    pub paid :
        q'.deficit_counter + bytes_in q ≡ q.deficit_counter + q.quantum_bytes * x + bytes_in q'
    pub fewer : bytes_in q' ≤ bytes_in q

  -- Each queue that holds a packet in `s` has paid in `t`, with a quantum for each of the `n` rounds
  -- that came to it.
  abbrev Pays : DrrScheduler Q → DrrScheduler Q → ℕ → ℕ → Type 0
  Pays s t m n =
      (k : ℕ) (q : InternalQueueState Q)
      → get_elem? s.queues k ≡ some q
      → 0 < length (contents_of q)
      → (q' : InternalQueueState Q) × (get_elem? t.queues k ≡ some q')
        × IsPaid q q' (visits s.current_queue_index m n k)

  -- A call that leaves `t` went `n` rounds on.
  pub record IsTurn (s t : DrrScheduler Q) (n : ℕ) : Type 0 where
    pub index : t.current_queue_index ≡ (s.current_queue_index + n) % length s.queues
    pub size : length t.queues ≡ length s.queues
    pub each : Pays s t (length s.queues) n

  IsPaid-refl : (q : InternalQueueState Q) → IsPaid q q 0
  IsPaid-refl q = record { quantum = refl; paid = omega arith; fewer = omega arith }

  -- The queue after it has sent its first packet.
  abbrev served : InternalQueueState Q → ℕ → InternalQueueState Q
  served q len = record q {
    packet_queue = (a.dequeue q.packet_queue).0;
    deficit_counter = q.deficit_counter + q.quantum_bytes - len;
  }

  served-IsPaid :
      (q : InternalQueueState Q) (p : PacketDescriptor) (ps : List PacketDescriptor)
      → contents_of q ≡ p ∷ ps
      → p.packet_length_bytes ≤ q.deficit_counter + q.quantum_bytes
      → IsPaid q (served q p.packet_length_bytes) 1
  served-IsPaid q p ps e l =
      let rest = ap total_bytes ((a.dequeue_first q.packet_queue p ps e).1) in
      let all = ap total_bytes e in
      record { quantum = refl; paid = omega arith; fewer = omega arith }

  topped_up-IsPaid :
      (q q' : InternalQueueState Q) (x : ℕ) → IsPaid (topped_up q) q' x → IsPaid q q' (1 + x)
  topped_up-IsPaid q q' x h = record {
    quantum = h.quantum;
    paid = omega (arith, h.paid, mul-add q.quantum_bytes 1 x);
    fewer = h.fewer;
  }

  pub none-IsTurn : (s : DrrScheduler Q) → IsQuantized s → IsTurn s s 0
  none-IsTurn s v = record {
    index =
        let e : s.current_queue_index + 0 ≡ s.current_queue_index = omega arith in
        rw e (sym (mod-eq_of_lt v.index));
    size = refl;
    each = λ k q g l.
        (q, g, rw (visits_none s.current_queue_index (length s.queues) k) (IsPaid-refl q));
  }

  pub sent-IsTurn :
      (s : DrrScheduler Q) (w : InternalQueueState Q) (p : PacketDescriptor)
      (ps : List PacketDescriptor)
      → IsQuantized s
      → get_elem? s.queues s.current_queue_index ≡ some w
      → contents_of w ≡ p ∷ ps
      → p.packet_length_bytes ≤ w.deficit_counter + w.quantum_bytes
      → IsTurn s (sent s w p.packet_length_bytes) 1
  sent-IsTurn s w p ps v g e l = record {
    index = refl;
    size = length-set s.queues s.current_queue_index (served w p.packet_length_bytes);
    each = λ k q gk held.
        elim (get_elem?-set_cases s.queues s.current_queue_index k (served w p.packet_length_bytes)
          g gk) [
            | inl (same, one, here) ↦ (
              served w p.packet_length_bytes,
              here,
              rw (visits_one_here s.current_queue_index (length s.queues) k same, ← one)
                  (served-IsPaid w p ps e l),
            )
            | inr (ne, other) ↦ (
              q,
              other,
              rw (visits_one_away s.current_queue_index (length s.queues) k ne) (IsPaid-refl q),
            )
          ];
  }

  pub waited-IsTurn :
      (s t : DrrScheduler Q) (w : InternalQueueState Q) (n : ℕ)
      → IsQuantized s
      → get_elem? s.queues s.current_queue_index ≡ some w
      → IsTurn (waited s w) t n
      → IsTurn s t (suc n)
  waited-IsTurn s t w n v g h =
      let len = length-set s.queues s.current_queue_index (topped_up w) in
      record {
        index = turn_add s.current_queue_index _ _ 1 n _ _ _ (omega arith) refl len h.index;
        size = h.size ∙ len;
        each = λ k q gk held.
            elim (get_elem?-set_cases s.queues s.current_queue_index k (topped_up w) g gk) [
              | inl (same, one, here) ↦
                  let held' : 0 < length (contents_of w) = rw one held in
                  let (q', g', x) = h.each k (topped_up w) here held' in
                  (
                    q',
                    g',
                    rw (visits_here s.current_queue_index (length s.queues) n k same, ← one)
                        (topped_up-IsPaid w q' _ (rw len at x)),
                  )
              | inr (ne, other) ↦
                  let (q', g', x) = h.each k q other held in
                  (
                    q',
                    g',
                    rw (visits_away s.current_queue_index (length s.queues) n k ne) (rw len at x),
                  )
            ];
      }

  pub passed-IsTurn :
      (s t : DrrScheduler Q) (w : InternalQueueState Q) (n : ℕ)
      → get_elem? s.queues s.current_queue_index ≡ some w
      → contents_of w ≡ []
      → IsTurn (passed s) t n
      → IsTurn s t (suc n)
  passed-IsTurn s t w n g none_here h = record {
    index = turn_add s.current_queue_index _ _ 1 n _ _ _ (omega arith) refl refl h.index;
    size = h.size;
    each = λ k q gk held. elim (ℕ_discrete s.current_queue_index k) [
      | yes same ↦
          let one : w ≡ q = some-injective _ _ (sym g ∙ (rw same gk)) in
          let empty = ap length none_here in
          absurd (omega (arith, ap (λ (x : InternalQueueState Q). length (contents_of x)) one))
      | no ne ↦
          let (q', g', x) = h.each k q gk held in
          (q', g', rw (visits_away s.current_queue_index (length s.queues) n k ne) x)
    ];
  }
