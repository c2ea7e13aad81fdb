-- ===== src/Scheduler/Wrr/Scan.antt =====
-- The `for` loop of `dequeue`: from `current_queue_index_`, round the queues once.
use mathlib.Core.Option.{some-injective}
use native.Mathlib.Decide.{dec_lt}
use hqts.Base.{
  ℕ, zero, suc, ◌+◌, ◌%◌, ◌<◌, ◌≡◌, refl, sym, subst, ◌∙◌, ◌⊎◌, inl, inr, true, false, none, some,
  length, get_elem?, get_elem?-total, get_elem?_bound, arith, Bool-cases,
}
use hqts.Aqm.Interface.{AqmQueue}
use hqts.Scheduler.Bank.{place_onto}
use hqts.Scheduler.Wrr.{WrrScheduler, InternalQueueState, can_send, scan, serve}

module _ {Q : Type 0} ⦃a : AqmQueue Q⦄ where
  -- The queue that round `i` looks at.
  abbrev pub place : WrrScheduler Q → ℕ → ℕ
  place s i = (s.current_queue_index + i) % length s.queues

  -- The queues of the rounds below `n` cannot send.
  abbrev pub Idle : WrrScheduler Q → ℕ → Type 0
  Idle s n =
      (j : ℕ) (v : InternalQueueState Q)
      → j < n
      → get_elem? s.queues (place s j) ≡ some v
      → can_send v ≡ false

  -- Queue `q`, of round `i`, is the first that can send.
  pub record IsNext (s : WrrScheduler Q) (i : ℕ) (q : InternalQueueState Q) : Type 0 where
    pub below : i < length s.queues
    pub found : get_elem? s.queues (place s i) ≡ some q
    pub ready : can_send q ≡ true
    pub before : Idle s i

  Idle-suc :
      (s : WrrScheduler Q) (n : ℕ) (q : InternalQueueState Q)
      → get_elem? s.queues (place s n) ≡ some q
      → can_send q ≡ false
      → Idle s n
      → Idle s (n + 1)
  Idle-suc s n q g e idle j v h gj = elim (dec_lt j n) [
    | yes l ↦ idle j v l gj
    | no l ↦
        let same : j ≡ n = omega arith in
        let w : q ≡ v = some-injective _ _ (sym g ∙ (rw same at gj)) in rw (← w) e
  ]

  scan_sends :
      (s : WrrScheduler Q) (i n : ℕ) (q : InternalQueueState Q)
      → get_elem? s.queues (place s i) ≡ some q
      → can_send q ≡ true
      → scan s i (suc n) ≡ some (serve s (place s i) q)
  unfolding scan
  scan_sends s i n q g e = rw (g, scan) (rw e)

  scan_skips :
      (s : WrrScheduler Q) (i n : ℕ) (q : InternalQueueState Q)
      → get_elem? s.queues (place s i) ≡ some q
      → can_send q ≡ false
      → scan s i (suc n) ≡ scan s (i + 1) n
  unfolding scan
  scan_skips s i n q g e = rw (g, scan) (rw e)

  abbrev pub Sends : WrrScheduler Q → ℕ → ℕ → Type 0
  Sends s i n =
      (k : ℕ) × (q : InternalQueueState Q) × IsNext s k q
      × (scan s i n ≡ some (serve s (place s k) q))

  scan_from :
      (s : WrrScheduler Q) (i n : ℕ)
      → i + n ≡ length s.queues
      → Idle s i
      → Sends s i n ⊎ ((scan s i n ≡ none) × Idle s (length s.queues))
  unfolding scan
  scan_from s i zero h idle =
      let e : i ≡ length s.queues = omega arith in inr (refl, subst (λ (m : ℕ). Idle s m) e idle)
  scan_from s i (suc n) h idle =
      let (q, g) = get_elem?-total s.queues (place s i) (omega arith) in
      elim (Bool-cases (can_send q)) [
        | inl e ↦ inl (
          i,
          q,
          record { below = omega arith; found = g; ready = e; before = idle },
          scan_sends s i n q g e,
        )
        | inr e ↦ elim (scan_from s (i + 1) n (omega arith) (Idle-suc s i q g e idle)) [
          | inl (k, w, next, done) ↦ inl (k, w, next, scan_skips s i n q g e ∙ done)
          | inr (stuck, all) ↦ inr (scan_skips s i n q g e ∙ stuck, all)
        ]
      ]

  -- The loop serves the first queue that can send, or no queue can.
  pub scan_cases :
      (s : WrrScheduler Q)
      → s.current_queue_index < length s.queues
      → Sends s 0 (length s.queues)
        ⊎ ((scan s 0 (length s.queues) ≡ none)
            × ((k : ℕ) (v : InternalQueueState Q)
                → get_elem? s.queues k ≡ some v
                → can_send v ≡ false))
  scan_cases s h =
      elim (scan_from s 0 (length s.queues) (omega arith) (λ j v l g. absurd (omega arith))) [
        | inl sends ↦ inl sends
        | inr (stuck, idle) ↦ inr (
          stuck,
          λ k v g.
              let (j, l, e) =
                place_onto s.current_queue_index k (length s.queues) h
                  (get_elem?_bound s.queues k g) in
              idle j v l (rw e g),
        )
      ]
