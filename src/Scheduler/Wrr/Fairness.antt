-- ===== src/Scheduler/Wrr/Fairness.antt =====
-- The shares of two queues of the WRR scheduler that compete for a while.
use native.Mathlib.Nat.{mul-add, mul_left_comm, mul_comm, mul-le-mul_left}
use hqts.Base.{
  Option-cases, ℕ, zero, suc, ◌+◌, ◌*◌, ◌-◌, ◌≤◌, ◌<◌, ◌≡◌, ◌≢◌, refl, ap, subst, ◌∙◌, inl, inr,
  Option, none, some, get_elem?, get_elem?-set_cases, arith,
}
use hqts.Packet.{PacketDescriptor}
use hqts.Aqm.Interface.{AqmQueue}
use hqts.Scheduler.Bank.{all_packets_bound}
use hqts.Scheduler.Wrr.Invariant.{contents_of, IsWeighted}
use hqts.Scheduler.Wrr.Order.{dequeue-IsWeighted}
use hqts.Scheduler.Wrr.Contract.{enqueue_queue, enqueue-IsWeighted}
use hqts.Scheduler.Wrr.Account.{credit, waiting_in, IsTurn, dequeue-IsTurn}
use hqts.Scheduler.Wrr.{WrrScheduler, InternalQueueState, enqueue, dequeue}

credit_bounded :
    (c c' w b b' x : ℕ)
    → c' + b ≡ c + w * x + b'
    → b' ≤ b
    → x ≤ 1
    → (0 < x → c ≡ 0)
    → c ≤ w
    → c' ≤ w
credit_bounded c c' w b b' zero e l h k m = omega arith
credit_bounded c c' w b b' (suc zero) e l h k m = omega (arith, k (omega arith))
credit_bounded c c' w b b' (suc (suc x)) e l h k m = absurd (omega arith)

-- Two queues that have paid for the same `r` rounds, one round apart at most.
shares :
    (m n b c d e v w r : ℕ)
    → d ≤ v
    → c ≤ w
    → m + b ≡ d + v * r
    → n + c ≡ e + w * r
    → m * w ≤ n * v + 2 * (v * w)
shares m n b c d e v w r h k x y =
    let mine : m ≤ v * (1 + r) = omega (arith, mul-add v 1 r) in
    let others : w * r ≤ n + w = omega arith in
    omega (
      arith,
      mul-le-mul_left w mine,
      mul-le-mul_left v others,
      mul-add v n w,
      mul_comm w m,
      mul_comm v n,
      mul_left_comm w v (1 + r),
      mul-add w 1 r,
      mul-add v w (w * r),
    )

module _ {Q : Type 0} ⦃a : AqmQueue Q⦄ where
  -- The number of packets that wait in queue `k`.
  abbrev pub backlog_in : Option (InternalQueueState Q) → ℕ
  backlog_in none = 0
  backlog_in (some q) = waiting_in q

  abbrev pub backlog : WrrScheduler Q → ℕ → ℕ
  backlog s k = backlog_in (get_elem? s.queues k)

  -- The number of packets that the next call of `dequeue` takes from queue `k`.
  abbrev pub taken : WrrScheduler Q → ℕ → ℕ
  taken s k = backlog s k - backlog (dequeue s).0 k

  -- Calls in any order from `s` on, with a packet waiting in both queues `i` and `j` at each
  -- `dequeue`; together they take `m` packets from `i` and `n` from `j`.
  pub data Contend (i j : ℕ) (s : WrrScheduler Q) : ℕ → ℕ → WrrScheduler Q → Type 0 where
    started : Contend i j s 0 0 s
    stored :
        {m n : ℕ} {t : WrrScheduler Q} (p : PacketDescriptor)
        → Contend i j s m n t
        → Contend i j s m n (enqueue t p).0
    called :
        {m n : ℕ} {t : WrrScheduler Q}
        → 0 < backlog t i
        → 0 < backlog t j
        → Contend i j s m n t
        → Contend i j s (m + taken t i) (n + taken t j) (dequeue t).0

  -- Queue `k` has weight `w`, owes no more than one round, and has paid for `m` packets out of `d`
  -- and `r` rounds.
  record HasPaid (t : WrrScheduler Q) (k w d m r : ℕ) : Type 0 where
    queue : InternalQueueState Q
    found : get_elem? t.queues k ≡ some queue
    weight : queue.weight ≡ w
    bounded : credit queue ≤ w
    paid : m + credit queue ≡ d + w * r

  enqueue-HasPaid :
      (t : WrrScheduler Q) (p : PacketDescriptor) (k w d m r : ℕ)
      → IsWeighted t
      → HasPaid t k w d m r
      → HasPaid (enqueue t p).0 k w d m r
  enqueue-HasPaid t p k w d m r v h = elim (enqueue_queue t p v) [
    | inl (_, e) ↦ rw e h
    | inr (i, q, _, g, e) ↦
        let stored : InternalQueueState Q = record q {
          packet_queue = (a.enqueue q.packet_queue p).0;
        } in
        rw e (elim (get_elem?-set_cases t.queues i k stored g h.found) [
          | inl (same, one, here) ↦ record {
            queue = stored;
            found = here;
            weight = ap (λ (x : InternalQueueState Q). x.weight) one ∙ h.weight;
            bounded = omega (arith, ap credit one, h.bounded);
            paid = omega (arith, ap credit one, h.paid);
          }
          | inr (ne, other) ↦ record {
            queue = h.queue;
            found = other;
            weight = h.weight;
            bounded = h.bounded;
            paid = h.paid;
          }
        ])
  ]

  turn-HasPaid :
      (t u : WrrScheduler Q) (k w d m r x : ℕ)
      → IsTurn t u x
      → 0 < backlog t k
      → HasPaid t k w d m r
      → HasPaid u k w d (m + (backlog t k - backlog u k)) (r + x)
  turn-HasPaid t u k w d m r x turn held h =
      let (q, g, step) = turn.each k h.queue h.found in
      let before : backlog t k ≡ waiting_in h.queue = rw h.found refl in
      let after : backlog u k ≡ waiting_in q = rw g refl in
      record {
        queue = q;
        found = g;
        weight = step.weight ∙ h.weight;
        bounded =
            credit_bounded (credit h.queue) (credit q) w (waiting_in h.queue) (waiting_in q) x
              (subst
                (λ (y : ℕ). credit q + waiting_in h.queue ≡ credit h.queue + y * x + waiting_in q)
                h.weight step.paid)
              step.fewer turn.once
              (λ l. turn.spent k h.queue h.found (omega (arith, before, held)) l) h.bounded;
        paid = omega (
          arith,
          before,
          after,
          h.paid,
          step.paid,
          step.fewer,
          mul-add w r x,
          ap (λ (y : ℕ). y * x) h.weight,
        );
      }

  some_held : (s : WrrScheduler Q) (k : ℕ) → IsWeighted s → 0 < backlog s k → s.total_packets ≢ 0
  some_held s k v held = elim (Option-cases (get_elem? s.queues k)) [
    | inl e ↦ let none_held : backlog s k ≡ 0 = rw e refl in absurd (omega arith)
    | inr (q, e) ↦
        let here : backlog s k ≡ waiting_in q = rw e refl in
        omega (arith, here, v.total, all_packets_bound contents_of s.queues k q e)
  ]

  run-HasPaid :
      (i j : ℕ) (s t : WrrScheduler Q) (m n v d w e : ℕ)
      → IsWeighted s
      → HasPaid s i v d 0 0
      → HasPaid s j w e 0 0
      → Contend i j s m n t
      → IsWeighted t × (r : ℕ) × HasPaid t i v d m r × HasPaid t j w e n r
  run-HasPaid i j s t m n v d w e good h k started = (good, 0, h, k)
  run-HasPaid i j s t m n v d w e good h k (stored p before) =
      let (good', r, x, y) = run-HasPaid i j s _ m n v d w e good h k before in
      (
        (enqueue-IsWeighted _ p good').0,
        r,
        enqueue-HasPaid _ p i v d m r good' x,
        enqueue-HasPaid _ p j w e n r good' y,
      )
  run-HasPaid i j s t m n v d w e good h k (called {m = m'} {n = n'} {t = u} bi bj before) =
      let (good', r, x, y) = run-HasPaid i j s u m' n' v d w e good h k before in
      let (z, turn) = dequeue-IsTurn u good' (some_held u i good' bi) in
      (
        (dequeue-IsWeighted u good').0,
        r + z,
        turn-HasPaid u _ i v d m' r z turn bi x,
        turn-HasPaid u _ j w e n' r z turn bj y,
      )

  start-HasPaid :
      (s : WrrScheduler Q) (k : ℕ) (q : InternalQueueState Q)
      → get_elem? s.queues k ≡ some q
      → credit q ≤ q.weight
      → HasPaid s k q.weight (credit q) 0 0
  start-HasPaid s k q g h = record {
    queue = q;
    found = g;
    weight = refl;
    bounded = h;
    paid = omega arith;
  }

  -- From a consistent state in which the deficits of two queues are at most their weights, however
  -- many packets are stored and sent, as long as both queues hold a packet at each `dequeue`: the
  -- numbers of packets that they send stand in the ratio of their weights, up to two rounds.
  pub contend_fair :
      (i j : ℕ) (s t : WrrScheduler Q) (q u : InternalQueueState Q) (m n : ℕ)
      → IsWeighted s
      → get_elem? s.queues i ≡ some q
      → get_elem? s.queues j ≡ some u
      → credit q ≤ q.weight
      → credit u ≤ u.weight
      → Contend i j s m n t
      → (m * u.weight ≤ n * q.weight + 2 * (q.weight * u.weight))
        × (n * q.weight ≤ m * u.weight + 2 * (u.weight * q.weight))
  contend_fair i j s t q u m n v gi gj hi hj run =
      let (_, r, x, y) =
        run-HasPaid i j s t m n q.weight (credit q) u.weight (credit u) v
          (start-HasPaid s i q gi hi) (start-HasPaid s j u gj hj) run in
      (
        shares m n _ _ (credit q) (credit u) q.weight u.weight r hi y.bounded x.paid y.paid,
        shares n m _ _ (credit u) (credit q) u.weight q.weight r hj x.bounded y.paid x.paid,
      )
