-- ===== src/Scheduler/StrictPriority/Scan.antt =====
-- The loop of `dequeue` and the highest queue that holds a packet.
use mathlib.Core.Option.{some-injective}
use native.Mathlib.Decide.{dec_lt}
use hqts.Base.{
  ℕ, zero, suc, ◌≤◌, ◌<◌, ◌≡◌, refl, sym, ◌∙◌, ◌⊎◌, inl, inr, List, [], ◌∷◌, some, length,
  get_elem?, err, arith, List-cases, logic_error, get_elem?-total,
}
use hqts.Packet.{PacketDescriptor}
use hqts.Aqm.Interface.{AqmQueue}
use hqts.Scheduler.StrictPriority.{StrictPriorityScheduler, scan, serve}

module _ {Q : Type 0} ⦃a : AqmQueue Q⦄ where
  -- The queue that `scan` serves: the highest of the first `n` that holds a packet.
  pub record IsHighest (s : StrictPriorityScheduler Q) (n i : ℕ) (q : Q) (p : PacketDescriptor)
      (ps : List PacketDescriptor) : Type 0 where
    pub below : i < n
    pub found : get_elem? s.priority_queues i ≡ some q
    pub waiting : a.contents q ≡ p ∷ ps
    pub above_empty :
        (j : ℕ) (v : Q) → i < j → j < n → get_elem? s.priority_queues j ≡ some v → a.contents v ≡ []

  abbrev pub Serves : StrictPriorityScheduler Q → ℕ → Type 0
  Serves s n =
      (i : ℕ) × (q : Q) × (p : PacketDescriptor) × (ps : List PacketDescriptor) × IsHighest s n i q
        p ps
      × (scan s n ≡ serve s i q)

  abbrev pub AllEmpty : StrictPriorityScheduler Q → ℕ → Type 0
  AllEmpty s n =
      (j : ℕ) (v : Q) → j < n → get_elem? s.priority_queues j ≡ some v → a.contents v ≡ []

  scan_served :
      (s : StrictPriorityScheduler Q) (n : ℕ) (q : Q) (p : PacketDescriptor)
      (ps : List PacketDescriptor)
      → get_elem? s.priority_queues n ≡ some q
      → a.contents q ≡ p ∷ ps
      → scan s (suc n) ≡ serve s n q
  unfolding scan
  scan_served s n q p ps g e = rw (g, scan) (rw (a.is_empty_lem q, e))

  scan_skip :
      (s : StrictPriorityScheduler Q) (n : ℕ) (q : Q)
      → get_elem? s.priority_queues n ≡ some q
      → a.contents q ≡ []
      → scan s (suc n) ≡ scan s n
  unfolding scan
  scan_skip s n q g e = rw (g, scan) (rw (a.is_empty_lem q, e))

  -- Queue `j` is empty if it is queue `n`, or if it is so below `n`.
  empty_up :
      (s : StrictPriorityScheduler Q) (n : ℕ) (q : Q) (j : ℕ) (v : Q)
      → get_elem? s.priority_queues n ≡ some q
      → a.contents q ≡ []
      → (j < n → a.contents v ≡ [])
      → j < suc n
      → get_elem? s.priority_queues j ≡ some v
      → a.contents v ≡ []
  empty_up s n q j v g e below hi gj = elim (dec_lt j n) [
    | yes l ↦ below l
    | no l ↦
        let same : j ≡ n = omega arith in
        let w : q ≡ v = some-injective _ _ (sym g ∙ (rw same at gj)) in rw (← w) e
  ]

  -- The scan serves the highest queue that holds a packet, or finds every queue empty.
  pub scan_cases :
      (s : StrictPriorityScheduler Q) (n : ℕ)
      → n ≤ length s.priority_queues
      → Serves s n ⊎ ((scan s n ≡ (s, err logic_error)) × AllEmpty s n)
  unfolding scan
  scan_cases s zero h = inr (refl, λ j v l g. absurd (omega arith))
  scan_cases s (suc n) h =
      let (q, g) = get_elem?-total s.priority_queues n h in
      elim (List-cases (a.contents q)) [
        | inr (p, ps, e) ↦ inl (
          n,
          q,
          p,
          ps,
          record {
            below = omega arith;
            found = g;
            waiting = e;
            above_empty = λ j v lo hi gj. absurd (omega arith);
          },
          scan_served s n q p ps g e,
        )
        | inl e ↦ elim (scan_cases s n (omega arith)) [
          | inl (i, w, p, ps, high, served) ↦ inl (
            i,
            w,
            p,
            ps,
            record {
              below = omega (arith, high.below);
              found = high.found;
              waiting = high.waiting;
              above_empty =
                  λ j v lo hi gj. empty_up s n q j v g e (λ k. high.above_empty j v lo k gj) hi gj;
            },
            scan_skip s n q g e ∙ served,
          )
          | inr (stuck, empties) ↦ inr (
            scan_skip s n q g e ∙ stuck,
            λ j v l gj. empty_up s n q j v g e (λ k. empties j v k gj) l gj,
          )
        ]
      ]
