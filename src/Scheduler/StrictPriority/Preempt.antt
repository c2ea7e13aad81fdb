-- ===== src/Scheduler/StrictPriority/Preempt.antt =====
-- A packet that arrives at the strict priority scheduler above all that wait.
use mathlib.Core.Option.{some-injective}
use native.Mathlib.Decide.{ℕ_discrete, dec_lt}
use hqts.Base.{
  ℕ, ◌≤◌, ◌<◌, ◌≡◌, ◌≢◌, refl, sym, ap, ◌∙◌, ◌⊎◌, inl, inr, true, false, leb, List, [], ◌∷◌, ◌++◌,
  some, length, get_elem?, get_elem?-set_self, get_elem?-set_ne, get_elem?_bound, set, set-set, ok,
  arith, Bool-cases,
}
use hqts.Packet.{PacketDescriptor}
use hqts.Aqm.Interface.{AqmQueue}
use hqts.Scheduler.Bank.{all_packets-set_same}
use hqts.Scheduler.StrictPriority.{StrictPriorityScheduler, enqueue, dequeue, is_empty}
use hqts.Scheduler.StrictPriority.Invariant.{packets, IsLevelled}
use hqts.Scheduler.StrictPriority.Scan.{IsHighest}
use hqts.Scheduler.StrictPriority.Order.{
  stores, enqueue_level, enqueue-IsLevelled, dequeue-IsHighest,
}

module _ {Q : Type 0} ⦃a : AqmQueue Q⦄ where
  -- No packet waits at level `k` or above.
  abbrev pub NoneAbove : StrictPriorityScheduler Q → ℕ → Type 0
  NoneAbove s k =
      (j : ℕ) (v : Q) → k ≤ j → get_elem? s.priority_queues j ≡ some v → a.contents v ≡ []

  -- The highest queue is the one that holds a packet while those above it are empty.
  highest_one :
      (s : StrictPriorityScheduler Q) (n i k : ℕ) (u w : Q) (p p' : PacketDescriptor)
      (ps : List PacketDescriptor)
      → IsHighest s n i u p' ps
      → get_elem? s.priority_queues k ≡ some w
      → a.contents w ≡ p ∷ []
      → k < n
      → ((j : ℕ) (v : Q) → k < j → get_elem? s.priority_queues j ≡ some v → a.contents v ≡ [])
      → (i ≡ k) × (w ≡ u)
  highest_one s n i k u w p p' ps high g e l above = elim (ℕ_discrete i k) [
    | yes same ↦ (same, some-injective _ _ (sym g ∙ (rw (← same) high.found)))
    | no ne ↦ elim (dec_lt i k) [
      | yes lower ↦ absurd (omega (arith, ap length (high.above_empty k w lower l g), ap length e))
      | no higher ↦
          absurd
            (omega (arith, ap length (above i u (omega arith) high.found), ap length high.waiting))
    ]
  ]

  stored_next :
      (s t : StrictPriorityScheduler Q) (k : ℕ) (q w : Q) (p : PacketDescriptor)
      → IsLevelled t
      → t.priority_queues ≡ set s.priority_queues k w
      → is_empty t ≡ false
      → get_elem? s.priority_queues k ≡ some q
      → a.contents q ≡ []
      → a.contents w ≡ p ∷ []
      → NoneAbove s k
      → ((dequeue t).1 ≡ ok p) × (packets (dequeue t).0 ≡ packets s)
  stored_next s t k q w p v queues held g none_here here none_above =
      let (i, u, p', ps, high, rest, done) = dequeue-IsHighest t v held in
      let g' : get_elem? t.priority_queues k ≡ some w =
        rw queues
          (get_elem?-set_self s.priority_queues k w (get_elem?_bound s.priority_queues k g)) in
      let above : (j : ℕ) (x : Q)
          → k < j
          → get_elem? t.priority_queues j ≡ some x
          → a.contents x ≡ [] =
        λ j x l h.
          let other : k ≢ j = omega arith in
          none_above j x (omega arith)
            (sym (get_elem?-set_ne s.priority_queues w other) ∙ (rw (← queues) h)) in
      let (same, one) =
        highest_one t t.num_levels i k u w p p' ps high g' here
          (omega (arith, v.levels, get_elem?_bound t.priority_queues k g')) above in
      let whole : p ∷ [] ≡ p' ∷ ps = sym here ∙ ap a.contents one ∙ high.waiting in
      let first : p' ≡ p = ground arith in
      let empty : a.contents (a.dequeue u).0 ≡ a.contents q = ground (arith, rest, none_here) in
      rw done (
        ap ok first,
        (rw (same, queues, set-set s.priority_queues k w (a.dequeue u).0)
            (all_packets-set_same a.contents s.priority_queues k q (a.dequeue u).0 g empty)),
      )

  stores_refused :
      (s : StrictPriorityScheduler Q) (p : PacketDescriptor)
      → s.num_levels ≤ p.priority
      → stores s p ≡ false
  stores_refused s p l = ground (arith, l)

  stores_level :
      (s : StrictPriorityScheduler Q) (p : PacketDescriptor) (q : Q)
      → IsLevelled s
      → get_elem? s.priority_queues p.priority ≡ some q
      → stores s p ≡ (a.enqueue q p).1
  stores_level s p q v g =
      let l = get_elem?_bound s.priority_queues p.priority g in
      let low : leb s.num_levels p.priority ≡ false = ground (arith, v.levels) in rw (low, g) refl

  -- From a consistent state in which no packet waits at the packet's level or above: where the
  -- scheduler does not store the packet, `enqueue` leaves the packets as they were; where it does,
  -- the next `dequeue` returns that packet and leaves the packets that were there before.
  pub dequeue-enqueue :
      (s : StrictPriorityScheduler Q) (p : PacketDescriptor)
      → IsLevelled s
      → NoneAbove s p.priority
      → let t = (enqueue s p).0 in
        ((stores s p ≡ false) × (packets t ≡ packets s))
        ⊎ ((stores s p ≡ true)
            × ((dequeue t).1 ≡ ok p)
            × (packets (dequeue t).0 ≡ packets s)
            × (is_empty t ≡ false))
  dequeue-enqueue s p v none_above = elim (enqueue_level s p v) [
    | inl (l, refused) ↦ inl (stores_refused s p l, rw refused refl)
    | inr (q, g, _, queues, total) ↦
        let after = a.contents-enqueue q p in
        let none_here = none_above p.priority q (omega arith) g in
        let answer = stores_level s p q v g in
        elim (Bool-cases (a.enqueue q p).1) [
          | inr dropped ↦ inl (
            answer ∙ dropped,
            rw queues (
                all_packets-set_same a.contents s.priority_queues p.priority q (a.enqueue q p).0 g
                  (rw dropped at after)),
          )
          | inl kept ↦
              let held : is_empty (enqueue s p).0 ≡ false = ground (arith, total, kept) in
              let here : a.contents (a.enqueue q p).0 ≡ p ∷ [] =
                (rw kept at after) ∙ ap (λ (ps : List PacketDescriptor). ps ++ p ∷ []) none_here in
              let (sent, left) =
                stored_next s (enqueue s p).0 p.priority q (a.enqueue q p).0 p
                  (enqueue-IsLevelled s p v).0 queues held g none_here here none_above in
              inr (answer ∙ kept, sent, left, held)
        ]
  ]
