-- ===== src/Scheduler/Drr/Fairness.antt =====
-- Two queues of the DRR scheduler that compete for a while, in bytes.
use native.Mathlib.Nat.{mod-eq_of_lt}
use hqts.Base.{
  ℕ, ◌+◌, ◌≤◌, ◌<◌, ◌≡◌, ◌≢◌, ◌%◌, refl, sym, ◌∙◌, some, length, get_elem?, get_elem?_bound, arith,
}
use hqts.Aqm.Interface.{AqmQueue}
use hqts.Scheduler.Drr.Invariant.{IsQuantized}
use hqts.Scheduler.Drr.Order.{dequeue-IsQuantized, enqueue-IsQuantized}
use hqts.Scheduler.Drr.Progress.{total_pos}
use hqts.Scheduler.Drr.Rounds.{visits, visits_none, visits-add, visits_close, turn_add}
use hqts.Scheduler.Drr.Equal.{backlog, held_lem}
use hqts.Scheduler.Drr.Compete.{
  Compete, started, stored, called, HasPaid, enqueue_keeps, turn-HasPaid,
}
use hqts.Scheduler.Drr.Account.Search.{dequeue_pays}
use hqts.Scheduler.Drr.{DrrScheduler, InternalQueueState, dequeue}

module _ {Q : Type 0} ⦃a : AqmQueue Q⦄ where
  -- What `r` rounds from `s` on have come to: the turn, and the accounts of the two queues.
  record Ran (i j v d w e : ℕ) (s t : DrrScheduler Q) (m n r : ℕ) : Type 0 where
    good : IsQuantized t
    size : length t.queues ≡ length s.queues
    index : t.current_queue_index ≡ (s.current_queue_index + r) % length s.queues
    first : HasPaid t i v d m (visits s.current_queue_index (length s.queues) r i)
    second : HasPaid t j w e n (visits s.current_queue_index (length s.queues) r j)

  some_held : (s : DrrScheduler Q) (k : ℕ) → IsQuantized s → 0 < backlog s k → s.total_packets ≢ 0
  some_held s k v held = let (q, p, ps, g, e) = held_lem s k held in total_pos s k q p ps v g e

  onward :
      (s t u : DrrScheduler Q) (k w d m m' r x : ℕ)
      → s.current_queue_index < length s.queues
      → length t.queues ≡ length s.queues
      → t.current_queue_index ≡ (s.current_queue_index + r) % length s.queues
      → HasPaid u k w d m' (
          visits s.current_queue_index (length s.queues) r k
          + visits t.current_queue_index (length t.queues) x k)
      → HasPaid u k w d m' (visits s.current_queue_index (length s.queues) (r + x) k)
  onward s t u k w d m m' r x l len turn h =
      let all = visits-add r x s.current_queue_index (length s.queues) k l in
      rw all (rw (turn, len) at h)

  run-Ran :
      (i j v d w e : ℕ) (s t : DrrScheduler Q) (m n : ℕ)
      → Ran i j v d w e s s 0 0 0
      → Compete i j s m n t
      → (r : ℕ) × Ran i j v d w e s t m n r
  run-Ran i j v d w e s t m n h started = (0, h)
  run-Ran i j v d w e s t m n h (stored {t = u} p before) =
      let (r, x) = run-Ran i j v d w e s u m n h before in
      let (turn, len, keep) = enqueue_keeps u p x.good in
      (
        r,
        record {
          good = (enqueue-IsQuantized u p x.good).0;
          size = len ∙ x.size;
          index = turn ∙ x.index;
          first = keep i v d m _ x.first;
          second = keep j w e n _ x.second;
        },
      )
  run-Ran i j v d w e s t m n h (called {m = m'} {n = n'} {t = u} hi hj before) =
      let (r, x) = run-Ran i j v d w e s u m' n' h before in
      let (z, few, y) = dequeue_pays u x.good (some_held u i x.good hi) in
      let l = h.good.index in
      (
        r + z,
        record {
          good = (dequeue-IsQuantized u x.good).0;
          size = y.size ∙ x.size;
          index = turn_add s.current_queue_index _ _ r z _ _ _ refl x.index x.size y.index;
          first =
              onward s u (dequeue u).0 i v d m' _ r z l x.size x.index
                (turn-HasPaid u _ i v d m' _ z y hi x.first);
          second =
              onward s u (dequeue u).0 j w e n' _ r z l x.size x.index
                (turn-HasPaid u _ j w e n' _ z y hj x.second);
        },
      )

  start-HasPaid :
      (s : DrrScheduler Q) (k : ℕ) (q : InternalQueueState Q)
      → get_elem? s.queues k ≡ some q
      → HasPaid s k q.quantum_bytes q.deficit_counter 0
          (visits s.current_queue_index (length s.queues) 0 k)
  start-HasPaid s k q g = record {
    queue = q;
    found = g;
    quantum = refl;
    paid = rw (visits_none s.current_queue_index (length s.queues) k) (omega arith);
  }

  -- From a consistent state, however many packets are stored and sent and however often `dequeue`
  -- throws, as long as queues `i` and `j` hold a packet at each `dequeue`: the bytes that each has
  -- sent and the deficit that it is left with come to its deficit at the start and a number of its
  -- quanta, and the two numbers differ by one at most.
  pub contend_quantized :
      (i j : ℕ) (s t : DrrScheduler Q) (q u : InternalQueueState Q) (m n : ℕ)
      → IsQuantized s
      → get_elem? s.queues i ≡ some q
      → get_elem? s.queues j ≡ some u
      → Compete i j s m n t
      → (x : ℕ) × (y : ℕ) × HasPaid t i q.quantum_bytes q.deficit_counter m x
        × HasPaid t j u.quantum_bytes u.deficit_counter n y
        × (x ≤ y + 1)
        × (y ≤ x + 1)
  contend_quantized i j s t q u m n v gi gj run =
      let e : s.current_queue_index + 0 ≡ s.current_queue_index = omega arith in
      let begun : Ran i j q.quantum_bytes q.deficit_counter u.quantum_bytes u.deficit_counter s s 0
          0 0 =
        record {
          good = v;
          size = refl;
          index = rw e (sym (mod-eq_of_lt v.index));
          first = start-HasPaid s i q gi;
          second = start-HasPaid s j u gj;
        } in
      let (r, h) = run-Ran i j _ _ _ _ s t m n begun run in
      let li = get_elem?_bound s.queues i gi in
      let lj = get_elem?_bound s.queues j gj in
      (
        _,
        _,
        h.first,
        h.second,
        visits_close r _ _ i j v.index li lj,
        visits_close r _ _ j i v.index lj li,
      )
