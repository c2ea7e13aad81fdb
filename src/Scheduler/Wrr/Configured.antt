-- ===== src/Scheduler/Wrr/Configured.antt =====
-- The constructor of the WRR scheduler.
use hqts.Base.{
  ℕ, suc, ◌+◌, ◌^◌, ◌<◌, ◌≡◌, ◌≢◌, refl, ◌∙◌, ◌⊎◌, inl, inr, true, false, List, [], ◌∷◌, ◌++◌, some,
  length, length-append, All, All-append, ok, err, >>=-eq-ok, arith, lookup, insert, lookup-insert,
  invalid_argument, Option-cases,
}
use native.Mathlib.Decide.{ℕ_discrete}
use hqts.Aqm.Interface.{AqmQueue, AqmFactory}
use hqts.Scheduler.Bank.{all_packets-append}
use hqts.Scheduler.Wrr.Invariant.{contents_of, packets, IsWeighted, IsCharged}
use hqts.Scheduler.Wrr.{
  WrrScheduler, InternalQueueState, QueueConfig, internal_queue_state, add_queue, add_queues,
  wrr_scheduler,
}

abbrev pub Fits : {P : Type 0} → QueueConfig P → Type 0
Fits qc = qc.weight < 2 ^ 31

module _ {Q : Type 0} ⦃a : AqmQueue Q⦄ where
  -- The state after `n` rounds of the constructor's loop.
  record IsBuilt (s : WrrScheduler Q) (n : ℕ) : Type 0 where
    size : length s.queues ≡ n
    index : s.current_queue_index ≡ 0
    total : s.total_packets ≡ 0
    empty : packets s ≡ []
    mapped : (k i : ℕ) → lookup k s.queue_id_to_index ≡ some i → i < n
    charged : All IsCharged s.queues

  abbrev start : WrrScheduler Q
  start = record {
    queues = [];
    queue_id_to_index = [];
    current_queue_index = 0;
    total_packets = 0;
    is_configured = false;
  }

  start-IsBuilt : IsBuilt start 0
  unfolding lookup
  start-IsBuilt = record {
    size = refl;
    index = refl;
    total = refl;
    empty = refl;
    mapped = λ k i e. cc;
    charged = tt;
  }

module _ {P Q : Type 0} ⦃a : AqmQueue Q⦄ ⦃f : AqmFactory P Q⦄ where
  abbrev pushed : WrrScheduler Q → ℕ → QueueConfig P → ℕ → WrrScheduler Q
  pushed s i qc now = record s {
    queues = s.queues ++ internal_queue_state qc.id qc.weight qc.aqm_params now ∷ [];
    queue_id_to_index = insert qc.id i s.queue_id_to_index;
  }

  -- A weight of 0 or an id that was there is refused.
  add_queue_cases :
      (s : WrrScheduler Q) (i : ℕ) (qc : QueueConfig P) (now : ℕ)
      → (add_queue s i qc now ≡ err invalid_argument)
        ⊎ ((qc.weight ≢ 0) × (add_queue s i qc now ≡ ok (pushed s i qc now)))
  unfolding add_queue
  add_queue_cases s i qc now = elim (ℕ_discrete qc.weight 0) [
    | yes e ↦ inl (ground arith)
    | no e ↦ elim (Option-cases (lookup qc.id s.queue_id_to_index)) [
      | inl g ↦ inr (e, ground (arith, g))
      | inr (j, g) ↦ inl (ground (arith, g))
    ]
  ]

  new-IsCharged :
      (qc : QueueConfig P) (now : ℕ)
      → qc.weight ≢ 0
      → Fits qc
      → IsCharged {Q = Q} (internal_queue_state qc.id qc.weight qc.aqm_params now)
  unfolding internal_queue_state
  new-IsCharged qc now h l = record {
    weight_pos = omega arith;
    weight_fits = l;
    deficit = ground arith;
  }

  pushed-IsBuilt :
      (s : WrrScheduler Q) (i : ℕ) (qc : QueueConfig P) (now : ℕ)
      → IsBuilt s i
      → qc.weight ≢ 0
      → Fits qc
      → IsBuilt (pushed s i qc now) (suc i)
  pushed-IsBuilt s i qc now v h l =
      let q : InternalQueueState Q = internal_queue_state qc.id qc.weight qc.aqm_params now in
      record {
        size = omega (arith, length-append s.queues (q ∷ []), v.size);
        index = v.index;
        total = v.total;
        empty =
            all_packets-append contents_of s.queues (q ∷ [])
            ∙ rw v.empty (unfold internal_queue_state in rw (f.contents-make qc.aqm_params now));
        mapped = λ k j e. ground (arith, lookup-insert qc.id k i s.queue_id_to_index, v.mapped k j);
        charged = All-append IsCharged s.queues (q ∷ []) v.charged (new-IsCharged qc now h l, tt);
      }

  add_queues-IsBuilt :
      (qcs : List (QueueConfig P)) (clock : ℕ → ℕ) (i : ℕ) (s t : WrrScheduler Q)
      → IsBuilt s i
      → All Fits qcs
      → add_queues qcs clock i s ≡ ok t
      → IsBuilt t (i + length qcs)
  unfolding add_queues
  add_queues-IsBuilt [] clock i s t v h e =
      let same : s ≡ t = cc in let n : i ≡ i + 0 = omega arith in rw (← same, ← n) v
  add_queues-IsBuilt (qc ∷ qcs) clock i s t v (l, ls) e = elim (add_queue_cases s i qc (clock i)) [
    | inl refused ↦ let bad = rw refused at e in cc
    | inr (h, pushes) ↦
        let n : suc i + length qcs ≡ i + suc (length qcs) = omega arith in
        rw (← n) (
          add_queues-IsBuilt qcs clock (suc i) (pushed s i qc (clock i)) t
            (pushed-IsBuilt s i qc (clock i) v h l) ls (rw pushes at e))
  ]

  -- Where the constructor does not throw and the weights fit an `int32_t`, the scheduler is
  -- consistent and holds one queue for each entry and no packet.
  pub wrr_scheduler-IsWeighted :
      (qcs : List (QueueConfig P)) (clock : ℕ → ℕ) (s : WrrScheduler Q)
      → All Fits qcs
      → wrr_scheduler qcs clock ≡ ok s
      → IsWeighted s × (length s.queues ≡ length qcs) × (packets s ≡ [])
  unfolding wrr_scheduler
  wrr_scheduler-IsWeighted [] clock s h e = cc
  wrr_scheduler-IsWeighted (qc ∷ qcs) clock s h e =
      let (t, built, final) =
        >>=-eq-ok (add_queues (qc ∷ qcs) clock 0 start)
          (λ t. ok (record t { is_configured = true })) e in
      let v = add_queues-IsBuilt (qc ∷ qcs) clock 0 start t start-IsBuilt h built in
      let same : record t { is_configured = true } ≡ s = cc in
      rw (← same) (
        record {
          configured = refl;
          index = omega (arith, v.index, v.size);
          total = rw v.empty v.total;
          mapped = λ k i g. omega (arith, v.size, v.mapped k i g);
          charged = v.charged;
        },
        omega (arith, v.size),
        v.empty,
      )
