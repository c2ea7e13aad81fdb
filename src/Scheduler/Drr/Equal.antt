-- ===== src/Scheduler/Drr/Equal.antt =====
-- Two queues of the DRR scheduler that compete for a while with first packets that are covered.
use native.Mathlib.Decide.{ℕ_discrete}
use hqts.Base.{
  length-set, lookup, get_elem?-total, ℕ, ◌+◌, ◌-◌, ◌≤◌, ◌<◌, ◌==◌, ◌≡◌, ◌≢◌, refl, ap, ◌∙◌, inl,
  inr, List, ◌∷◌, Option, none, some, length, if◌then◌else◌, get_elem?, get_elem?-set_self,
  get_elem?-set_ne, get_elem?_bound, arith, List-cases, Option-cases,
}
use hqts.Packet.{PacketDescriptor}
use hqts.Aqm.Interface.{AqmQueue}
use hqts.Scheduler.Bank.{place_onto}
use hqts.Scheduler.Drr.Invariant.{contents_of, IsQuantized, sent}
use hqts.Scheduler.Drr.Order.{
  dequeue-IsQuantized, enqueue-IsQuantized, enqueue_known, enqueue_unknown,
}
use hqts.Scheduler.Drr.Turns.{Covered, place, at_place, NoneBefore, dequeue-IsFirst}
use hqts.Scheduler.Drr.{DrrScheduler, InternalQueueState, enqueue, enqueue_in, dequeue}
use hqts.Scheduler.Drr.Phases.{phase, phase_step, phase_le}

module _ {Q : Type 0} ⦃a : AqmQueue Q⦄ where
  -- The number of packets that wait in queue `k`.
  abbrev pub backlog_in : Option (InternalQueueState Q) → ℕ
  backlog_in none = 0
  backlog_in (some q) = length (contents_of q)

  abbrev pub backlog : DrrScheduler Q → ℕ → ℕ
  backlog s k = backlog_in (get_elem? s.queues k)

  -- The number of packets that the next call of `dequeue` takes from queue `k`.
  abbrev pub taken : DrrScheduler Q → ℕ → ℕ
  taken s k = backlog s k - backlog (dequeue s).0 k

  -- Calls in any order from `s` on; at each `dequeue` queues `i` and `j` hold a packet and all
  -- first packets are covered. Together they take `m` packets from `i` and `n` from `j`.
  pub data Contend (i j : ℕ) (s : DrrScheduler Q) : ℕ → ℕ → DrrScheduler Q → Type 0 where
    started : Contend i j s 0 0 s
    stored :
        {m n : ℕ} {t : DrrScheduler Q} (p : PacketDescriptor)
        → Contend i j s m n t
        → Contend i j s m n (enqueue t p).0
    called :
        {m n : ℕ} {t : DrrScheduler Q}
        → 0 < backlog t i
        → 0 < backlog t j
        → Covered t
        → Contend i j s m n t
        → Contend i j s (m + taken t i) (n + taken t j) (dequeue t).0

  pub held_lem :
      (s : DrrScheduler Q) (k : ℕ)
      → 0 < backlog s k
      → (q : InternalQueueState Q) × (p : PacketDescriptor) × (ps : List PacketDescriptor)
        × (get_elem? s.queues k ≡ some q)
        × (contents_of q ≡ p ∷ ps)
  held_lem s k h = elim (Option-cases (get_elem? s.queues k)) [
    | inl e ↦ let none_held : backlog s k ≡ 0 = rw e refl in absurd (omega arith)
    | inr (q, e) ↦
        let here : backlog s k ≡ length (contents_of q) = rw e refl in
        elim (List-cases (contents_of q)) [
          | inl f ↦ absurd (omega (arith, here, ap length f))
          | inr (p, ps, f) ↦ (q, p, ps, e, f)
        ]
  ]

  sent_taken :
      (s : DrrScheduler Q) (q : InternalQueueState Q) (p : PacketDescriptor)
      (ps : List PacketDescriptor) (len k : ℕ)
      → get_elem? s.queues s.current_queue_index ≡ some q
      → contents_of q ≡ p ∷ ps
      → backlog s k - backlog (sent s q len) k ≡ (if s.current_queue_index == k then 1 else 0)
  sent_taken s q p ps len k g e =
      let w : InternalQueueState Q = record q {
        packet_queue = (a.dequeue q.packet_queue).0;
        deficit_counter = q.deficit_counter + q.quantum_bytes - len;
      } in
      elim (ℕ_discrete s.current_queue_index k) [
        | yes same ↦
            let before : backlog s k ≡ length (contents_of q) = rw (← same, g) refl in
            let here =
              get_elem?-set_self s.queues s.current_queue_index w
                (get_elem?_bound s.queues s.current_queue_index g) in
            let after : backlog (sent s q len) k ≡ length (contents_of w) =
              rw (← same, here) refl in
            let rest = (a.dequeue_first q.packet_queue p ps e).1 in
            ground (arith, before, after, ap length rest, ap length e)
        | no ne ↦
            let other : backlog (sent s q len) k ≡ backlog s k =
              ap backlog_in (get_elem?-set_ne s.queues w ne) in
            ground (arith, other)
      ]

  not_before :
      (s : DrrScheduler Q) (r k : ℕ)
      → NoneBefore s r
      → 0 < backlog s k
      → (e : ℕ) → e < r
      → place s e ≢ k
  not_before s r k before held e low same =
      let (q, p, ps, g, c) = held_lem s k held in
      absurd (omega (arith, ap length c, ap length (before e q low (rw same g))))

  called_step :
      (s : DrrScheduler Q) (i j : ℕ)
      → IsQuantized s
      → Covered s
      → i < j
      → j < length s.queues
      → 0 < backlog s i
      → 0 < backlog s j
      → (taken s i + phase s.current_queue_index i j
          ≡ taken s j + phase (dequeue s).0.current_queue_index i j)
        × (length (dequeue s).0.queues ≡ length s.queues)
  called_step s i j v c low high hi hj =
      let (q, p, ps, g, e) = held_lem s i hi in
      let (d, l, turn) =
        place_onto s.current_queue_index i (length s.queues) v.index (omega arith) in
      let x = dequeue-IsFirst s d i q p ps v c g e l turn in
      let ti =
        sent_taken (at_place s x.round) x.queue x.packet x.rest x.packet.packet_length_bytes i
          x.found x.waiting in
      let tj =
        sent_taken (at_place s x.round) x.queue x.packet x.rest x.packet.packet_length_bytes j
          x.found x.waiting in
      let step =
        phase_step s.current_queue_index x.round (length s.queues) i j (place s x.round) v.index low
          high (omega (arith, x.near)) refl (not_before s x.round i x.before hi)
          (not_before s x.round j x.before hj) in
      rw (x.result, ti, tj) (step, length-set s.queues (place s x.round) _)

  enqueue_index :
      (s : DrrScheduler Q) (p : PacketDescriptor)
      → IsQuantized s
      → ((enqueue s p).0.current_queue_index ≡ s.current_queue_index)
        × (length (enqueue s p).0.queues ≡ length s.queues)
  unfolding enqueue_in
  enqueue_index s p v = elim (Option-cases (lookup p.priority s.queue_id_to_index)) [
    | inl e ↦ rw (enqueue_unknown s p v e) (refl, refl)
    | inr (k, e) ↦
        let (q, g) = get_elem?-total s.queues k (v.mapped p.priority k e) in
        rw (enqueue_known s p k q v e g) (refl, length-set s.queues k _)
  ]

  run_phase :
      (i j : ℕ) (s t : DrrScheduler Q) (m n : ℕ)
      → IsQuantized s
      → i < j
      → j < length s.queues
      → Contend i j s m n t
      → IsQuantized t
        × (length t.queues ≡ length s.queues)
        × (m + phase s.current_queue_index i j ≡ n + phase t.current_queue_index i j)
  run_phase i j s t m n v low high started = (v, refl, refl)
  run_phase i j s t m n v low high (stored {t = u} p before) =
      let (w, len, bal) = run_phase i j s u m n v low high before in
      let (same, size) = enqueue_index u p w in
      ((enqueue-IsQuantized u p w).0, size ∙ len, rw same bal)
  run_phase i j s t m n v low high (called {m = m'} {n = n'} {t = u} hi hj c before) =
      let (w, len, bal) = run_phase i j s u m' n' v low high before in
      let (step, size) = called_step u i j w c low (omega arith) hi hj in
      ((dequeue-IsQuantized u w).0, size ∙ len, omega arith)

  -- From a consistent state, however many packets are stored and sent, as long as queues `i` and
  -- `j` hold a packet and every queue's first packet is covered by its deficit and one quantum at
  -- each `dequeue`: the numbers of packets that the two send differ by one at most, whatever their
  -- quanta.
  pub contend_equal :
      (i j : ℕ) (s t : DrrScheduler Q) (m n : ℕ)
      → IsQuantized s
      → i < j
      → j < length s.queues
      → Contend i j s m n t
      → (m ≤ n + 1) × (n ≤ m + 1)
  contend_equal i j s t m n v low high run =
      let (_, _, bal) = run_phase i j s t m n v low high run in
      let x = phase_le s.current_queue_index i j in
      let y = phase_le t.current_queue_index i j in (omega arith, omega arith)
