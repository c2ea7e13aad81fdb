-- ===== src/Scheduler/Drr/Patience.antt =====
-- Calls of `dequeue` of the DRR scheduler that throw, and the call that returns a packet.
use native.Mathlib.Decide.{ℕ_discrete, dec_le}
use native.Mathlib.Nat.{mul-add}
use mathlib.Core.Option.{some-injective}
use hqts.Base.{
  ℕ, zero, suc, ◌+◌, ◌*◌, ◌%◌, ◌≤◌, ◌<◌, ◌≡◌, ◌≢◌, refl, sym, ap, ◌∙◌, List, ◌⊎◌, inl, inr, [], ◌∷◌,
  some, length, length-set, get_elem?, get_elem?-set_cases, get_elem?_bound, err, logic_error,
  arith,
}
use hqts.Packet.{PacketDescriptor}
use hqts.Aqm.Interface.{AqmQueue}
use hqts.Scheduler.Calls.{after, after-zero, after-suc}
use hqts.Scheduler.Drr.Invariant.{
  contents_of, IsQuantized, topped_up, waited, passed, waited_lem, passed_lem,
}
use hqts.Scheduler.Drr.Visits.{
  sends, waits, passes, visit_cases, visit_sends, visit_waits, visit_empty, search_moved,
  search_returned,
}
use hqts.Scheduler.Drr.Rounds.{visits, visits_none, visits_here, visits_away, visits_twice}
use hqts.Scheduler.Drr.Order.{dequeue_search, dequeue-IsQuantized, drr}
use hqts.Scheduler.Drr.Progress.{IsReady, Succeeds, dequeue_ready, total_pos}
use hqts.Scheduler.Drr.{DrrScheduler, InternalQueueState, search, dequeue}

still_few :
    (d q len n : ℕ)
    → d + q < len
    → (n ≡ 0) ⊎ (d + q * 2 + q * (n * 2) < len + q)
    → d + q * (suc n * 2) < len + q
still_few d q len n h (inl e) = rw e (omega arith)
still_few d q len n h (inr l) = omega (arith, mul-add q 2 (n * 2))

few_of : (d q len n : ℕ) → 0 < q → (n ≡ 0) ⊎ (d + q * (n * 2) < len + q) → q * (n * 2) < len + q
few_of d q len n h (inl e) = rw e (omega arith)
few_of d q len n h (inr l) = omega arith

module _ {Q : Type 0} ⦃a : AqmQueue Q⦄ where
  -- The queue after `x` quanta more.
  abbrev pub raised : InternalQueueState Q → ℕ → InternalQueueState Q
  raised q x = record q { deficit_counter = q.deficit_counter + q.quantum_bytes * x }

  with_deficit : InternalQueueState Q → ℕ → InternalQueueState Q
  with_deficit q d = record q { deficit_counter = d }

  raised-zero : (q : InternalQueueState Q) → raised q 0 ≡ q
  unfolding with_deficit
  raised-zero q =
      let e : q.deficit_counter + q.quantum_bytes * 0 ≡ q.deficit_counter = omega arith in
      ap (with_deficit q) e

  raised-suc : (q : InternalQueueState Q) (x : ℕ) → raised (topped_up q) x ≡ raised q (1 + x)
  unfolding with_deficit
  raised-suc q x =
      let e : q.deficit_counter + q.quantum_bytes + q.quantum_bytes * x
          ≡ q.deficit_counter + q.quantum_bytes * (1 + x) =
        omega (arith, mul-add q.quantum_bytes 1 x) in
      ap (with_deficit q) e

  -- Each queue that holds a packet in `s` is as it was in `t`, but for a quantum for each of the
  -- `left` rounds that come to it.
  abbrev Raised : DrrScheduler Q → ℕ → ℕ → DrrScheduler Q → Type 0
  Raised s m left t =
      (k : ℕ) (q : InternalQueueState Q)
      → get_elem? s.queues k ≡ some q
      → 0 < length (contents_of q)
      → get_elem? t.queues k ≡ some (raised q (visits s.current_queue_index m left k))

  abbrev Outcome : DrrScheduler Q → ℕ → ℕ → Type 0
  Outcome s m left =
      Succeeds (search s left)
      ⊎ ((t : DrrScheduler Q) × (search s left ≡ (t, err logic_error)) × Raised s m left t)

  waited-Raised :
      (s t : DrrScheduler Q) (w : InternalQueueState Q) (m n : ℕ)
      → m ≡ length s.queues
      → get_elem? s.queues s.current_queue_index ≡ some w
      → Raised (waited s w) m n t
      → Raised s m (suc n) t
  waited-Raised s t w m n em g h k q gk held =
      elim (get_elem?-set_cases s.queues s.current_queue_index k (topped_up w) g gk) [
        | inl (same, one, here) ↦
            let held' : 0 < length (contents_of w) = rw one held in
            let x = rw (← em) at (h k (topped_up w) here held') in
            rw (visits_here s.current_queue_index m n k same, ← one)
              (x ∙ ap some (raised-suc w (visits ((s.current_queue_index + 1) % m) m n k)))
        | inr (ne, other) ↦
            let x = rw (← em) at (h k q other held) in
            rw (visits_away s.current_queue_index m n k ne) x
      ]

  passed-Raised :
      (s t : DrrScheduler Q) (w : InternalQueueState Q) (m n : ℕ)
      → m ≡ length s.queues
      → get_elem? s.queues s.current_queue_index ≡ some w
      → contents_of w ≡ []
      → Raised (passed s) m n t
      → Raised s m (suc n) t
  passed-Raised s t w m n em g none_here h k q gk held = elim (ℕ_discrete s.current_queue_index k) [
    | yes same ↦
        let one : w ≡ q = some-injective _ _ (sym g ∙ (rw same gk)) in
        let empty = ap length none_here in
        absurd (omega (arith, ap (λ (x : InternalQueueState Q). length (contents_of x)) one))
    | no ne ↦
        let x = rw (← em) at (h k q gk held) in rw (visits_away s.current_queue_index m n k ne) x
  ]

  search-Outcome :
      (s : DrrScheduler Q) (m n : ℕ)
      → IsQuantized s
      → m ≡ length s.queues
      → s.total_packets ≢ 0
      → Outcome s m n
  unfolding search
  search-Outcome s m zero v em held = inr (
    s,
    ground arith,
    λ k q g l. rw (visits_none s.current_queue_index m k) (g ∙ ap some (sym (raised-zero q))),
  )
  search-Outcome s m (suc n) v em held = elim (visit_cases s v) [
    | sends q p ps g e l ↦ inl (_, p, search_returned s n _ _ (visit_sends s q p ps g e l))
    | waits q p ps g e l ↦
        let len = length-set s.queues s.current_queue_index (topped_up q) in
        rw (search_moved s n _ (visit_waits s q p ps g e l))
          (elim (search-Outcome (waited s q) m n (waited_lem s q v g).0 (omega (arith, len)) held) [
            | inl done ↦ inl done
            | inr (t, thrown, up) ↦ inr (t, thrown, waited-Raised s t q m n em g up)
          ])
    | passes q g e ↦
        rw (search_moved s n _ (visit_empty s q g e))
          (elim (search-Outcome (passed s) m n (passed_lem s v) em held) [
            | inl done ↦ inl done
            | inr (t, thrown, up) ↦ inr (t, thrown, passed-Raised s t q m n em g e up)
          ])
  ]

  -- From a consistent state that holds a packet, `dequeue` either returns a packet, or it throws the
  -- logic error and then each queue that held a packet is as it was, but for two quanta more.
  pub dequeue_raises :
      (s : DrrScheduler Q)
      → IsQuantized s
      → s.total_packets ≢ 0
      → Succeeds (dequeue s)
        ⊎ ((t : DrrScheduler Q) × (dequeue s ≡ (t, err logic_error))
            × ((k : ℕ) (q : InternalQueueState Q)
                → get_elem? s.queues k ≡ some q
                → 0 < length (contents_of q)
                → get_elem? t.queues k ≡ some (raised q 2)))
  dequeue_raises s v held =
      rw (dequeue_search s v held)
        (elim (search-Outcome s (length s.queues) (length s.queues * 2) v refl held) [
          | inl done ↦ inl done
          | inr (t, thrown, up) ↦ inr (
            t,
            thrown,
            λ k q g l.
                rw
                  (← visits_twice s.current_queue_index (length s.queues) k v.index
                    (get_elem?_bound s.queues k g))
                  (up k q g l),
          )
        ])

  -- `n` calls throw, then one returns a packet; the calls that throw are few.
  abbrev pub Returns : DrrScheduler Q → ℕ → ℕ → ℕ → Type 0
  Returns s deficit quantum len =
      (n : ℕ) × ((n ≡ 0) ⊎ (deficit + quantum * (n * 2) < len + quantum))
      × Succeeds (dequeue (after n s))

  patient :
      (budget : ℕ) (s : DrrScheduler Q) (k : ℕ) (q : InternalQueueState Q) (p : PacketDescriptor)
      (ps : List PacketDescriptor)
      → IsQuantized s
      → get_elem? s.queues k ≡ some q
      → contents_of q ≡ p ∷ ps
      → 0 < q.quantum_bytes
      → p.packet_length_bytes ≤ q.deficit_counter + q.quantum_bytes + budget
      → Returns s q.deficit_counter q.quantum_bytes p.packet_length_bytes
  patient zero s k q p ps v g e pos enough =
      let ready : IsReady s k q p ps = record { found = g; waiting = e; covered = omega arith } in
      (0, inl refl, rw after-zero (dequeue_ready s k q p ps v ready))
  patient (suc budget) s k q p ps v g e pos enough =
      elim (dec_le p.packet_length_bytes (q.deficit_counter + q.quantum_bytes)) [
        | yes h ↦
            let ready : IsReady s k q p ps = record { found = g; waiting = e; covered = h } in
            (0, inl refl, rw after-zero (dequeue_ready s k q p ps v ready))
        | no h ↦ elim (dequeue_raises s v (total_pos s k q p ps v g e)) [
          | inl done ↦ (0, inl refl, rw after-zero done)
          | inr (t, thrown, up) ↦
              let w = rw thrown at (dequeue-IsQuantized s v).0 in
              let held : 0 < length (contents_of q) = omega (arith, ap length e) in
              let (n, few, done) =
                patient budget t k (raised q 2) p ps w (up k q g held) e pos (omega arith) in
              let few' : q.deficit_counter + q.quantum_bytes * (suc n * 2)
                  < p.packet_length_bytes + q.quantum_bytes =
                still_few q.deficit_counter q.quantum_bytes p.packet_length_bytes n (omega arith)
                  few in
              (suc n, inr few', rw (after-suc n s, thrown) done)
        ]
      ]

  -- From a consistent state in which some queue holds a packet and has a positive quantum, there is
  -- a number `n` such that the `dequeue` after `n` calls of `dequeue` returns a packet; `2 * n`
  -- quanta of that queue are less than the length of its first packet and one quantum.
  pub dequeue_patient :
      (s : DrrScheduler Q) (k : ℕ) (q : InternalQueueState Q) (p : PacketDescriptor)
      (ps : List PacketDescriptor)
      → IsQuantized s
      → get_elem? s.queues k ≡ some q
      → contents_of q ≡ p ∷ ps
      → 0 < q.quantum_bytes
      → (n : ℕ) × (q.quantum_bytes * (n * 2) < p.packet_length_bytes + q.quantum_bytes)
        × Succeeds (dequeue (after n s))
  dequeue_patient s k q p ps v g e pos =
      let (n, few, done) = patient p.packet_length_bytes s k q p ps v g e pos (omega arith) in
      (n, few_of q.deficit_counter q.quantum_bytes p.packet_length_bytes n pos few, done)
