-- ===== src/Scheduler/Drr/Configured.antt =====
-- The constructor of the DRR scheduler.
use hqts.Base.{
  ℕ, suc, ◌+◌, ◌<◌, ◌≡◌, ◌≢◌, refl, ◌∙◌, ◌⊎◌, inl, inr, true, false, List, [], ◌∷◌, ◌++◌, some,
  length, length-append, All, All-append, ok, err, >>=-eq-ok, arith, lookup, insert, lookup-insert,
  invalid_argument, Option-cases,
}
use native.Mathlib.Decide.{ℕ_discrete}
use hqts.Aqm.Interface.{AqmQueue, AqmFactory}
use hqts.Scheduler.Bank.{all_packets-append}
use hqts.Scheduler.Drr.Invariant.{contents_of, packets, IsQuantized}
use hqts.Scheduler.Drr.{
  DrrScheduler, InternalQueueState, QueueConfig, internal_queue_state, add_queue, add_queues,
  drr_scheduler,
}

abbrev pub HasQuantum : {Q : Type 0} → InternalQueueState Q → Type 0
HasQuantum q = 0 < q.quantum_bytes

module _ {Q : Type 0} ⦃a : AqmQueue Q⦄ where
  -- The state after `n` rounds of the constructor's loop.
  record IsBuilt (s : DrrScheduler Q) (n : ℕ) : Type 0 where
    size : length s.queues ≡ n
    index : s.current_queue_index ≡ 0
    total : s.total_packets ≡ 0
    empty : packets s ≡ []
    mapped : (k i : ℕ) → lookup k s.queue_id_to_index ≡ some i → i < n
    quanta : All HasQuantum s.queues

  abbrev start : DrrScheduler Q
  start = record {
    queues = [];
    queue_id_to_index = [];
    current_queue_index = 0;
    total_packets = 0;
    is_configured = false;
  }

  start-IsBuilt : IsBuilt start 0
  unfolding lookup
  start-IsBuilt = record {
    size = refl;
    index = refl;
    total = refl;
    empty = refl;
    mapped = λ k i e. cc;
    quanta = tt;
  }

module _ {P Q : Type 0} ⦃a : AqmQueue Q⦄ ⦃f : AqmFactory P Q⦄ where
  abbrev pushed : DrrScheduler Q → ℕ → QueueConfig P → ℕ → DrrScheduler Q
  pushed s i qc now = record s {
    queues = s.queues ++ internal_queue_state qc.id qc.quantum_bytes qc.aqm_params now ∷ [];
    queue_id_to_index = insert qc.id i s.queue_id_to_index;
  }

  -- A quantum of 0 or an id that was there is refused.
  add_queue_cases :
      (s : DrrScheduler Q) (i : ℕ) (qc : QueueConfig P) (now : ℕ)
      → (add_queue s i qc now ≡ err invalid_argument)
        ⊎ ((qc.quantum_bytes ≢ 0) × (add_queue s i qc now ≡ ok (pushed s i qc now)))
  unfolding add_queue
  add_queue_cases s i qc now = elim (ℕ_discrete qc.quantum_bytes 0) [
    | yes e ↦ inl (ground arith)
    | no e ↦ elim (Option-cases (lookup qc.id s.queue_id_to_index)) [
      | inl g ↦ inr (e, ground (arith, g))
      | inr (j, g) ↦ inl (ground (arith, g))
    ]
  ]

  pushed-IsBuilt :
      (s : DrrScheduler Q) (i : ℕ) (qc : QueueConfig P) (now : ℕ)
      → IsBuilt s i
      → qc.quantum_bytes ≢ 0
      → IsBuilt (pushed s i qc now) (suc i)
  unfolding internal_queue_state
  pushed-IsBuilt s i qc now v h =
      let pos : 0 < qc.quantum_bytes = omega arith in
      let q : InternalQueueState Q =
        internal_queue_state qc.id qc.quantum_bytes qc.aqm_params now in
      record {
        size = omega (arith, length-append s.queues (q ∷ []), v.size);
        index = v.index;
        total = v.total;
        empty =
            all_packets-append contents_of s.queues (q ∷ [])
            ∙ rw v.empty (rw (f.contents-make qc.aqm_params now));
        mapped = λ k j e. ground (arith, lookup-insert qc.id k i s.queue_id_to_index, v.mapped k j);
        quanta = All-append HasQuantum s.queues (q ∷ []) v.quanta (pos, tt);
      }

  add_queues-IsBuilt :
      (qcs : List (QueueConfig P)) (clock : ℕ → ℕ) (i : ℕ) (s t : DrrScheduler Q)
      → IsBuilt s i
      → add_queues qcs clock i s ≡ ok t
      → IsBuilt t (i + length qcs)
  unfolding add_queues
  add_queues-IsBuilt [] clock i s t v e =
      let same : s ≡ t = cc in let n : i ≡ i + 0 = omega arith in rw (← same, ← n) v
  add_queues-IsBuilt (qc ∷ qcs) clock i s t v e = elim (add_queue_cases s i qc (clock i)) [
    | inl refused ↦ let bad = rw refused at e in cc
    | inr (h, pushes) ↦
        let n : suc i + length qcs ≡ i + suc (length qcs) = omega arith in
        rw (← n) (
          add_queues-IsBuilt qcs clock (suc i) (pushed s i qc (clock i)) t
            (pushed-IsBuilt s i qc (clock i) v h) (rw pushes at e))
  ]

  -- Where the constructor does not throw, the scheduler is consistent and holds one queue for each
  -- entry, each with a positive quantum, and no packet.
  pub drr_scheduler-IsQuantized :
      (qcs : List (QueueConfig P)) (clock : ℕ → ℕ) (s : DrrScheduler Q)
      → drr_scheduler qcs clock ≡ ok s
      → IsQuantized s × (length s.queues ≡ length qcs) × (packets s ≡ []) × All HasQuantum s.queues
  unfolding drr_scheduler
  drr_scheduler-IsQuantized [] clock s e = cc
  drr_scheduler-IsQuantized (qc ∷ qcs) clock s e =
      let (t, built, final) =
        >>=-eq-ok (add_queues (qc ∷ qcs) clock 0 start)
          (λ t. ok (record t { is_configured = true })) e in
      let v = add_queues-IsBuilt (qc ∷ qcs) clock 0 start t start-IsBuilt built in
      let same : record t { is_configured = true } ≡ s = cc in
      rw (← same) (
        record {
          configured = refl;
          index = omega (arith, v.index, v.size);
          total = rw v.empty v.total;
          mapped = λ k i g. omega (arith, v.size, v.mapped k i g);
        },
        omega (arith, v.size),
        v.empty,
        v.quanta,
      )
