-- ===== src/Scheduler/Drr/Rounds.antt =====
-- How often the rounds of the loop of `dequeue` come to a queue.
use native.Mathlib.Decide.{ℕ_discrete, dec_lt, dec_le}
use native.Mathlib.Nat.{mod-add-mod, mod-eq_of_lt}
use hqts.Base.{
  ltb, ℕ, zero, suc, ◌+◌, ◌-◌, ◌*◌, ◌%◌, ◌≤◌, ◌<◌, ◌==◌, ◌≡◌, ◌≢◌, refl, sym, ap, ◌∙◌,
  if◌then◌else◌, arith,
}
use hqts.Scheduler.Bank.{place_onto}
use hqts.Scheduler.Drr.Progress.{step_nearer}

-- How often `left` rounds from queue `c` of `n` come to queue `k`.
unfoldable pub visits : ℕ → ℕ → ℕ → ℕ → ℕ
visits c n zero k = 0
visits c n (suc left) k = (if c == k then 1 else 0) + visits ((c + 1) % n) n left k

pub visits_none : (c n k : ℕ) → visits c n 0 k ≡ 0
unfolding visits
visits_none c n k = refl

pub visits_here :
    (c n left k : ℕ) → c ≡ k → visits c n (suc left) k ≡ 1 + visits ((c + 1) % n) n left k
unfolding visits
visits_here c n left k e = ground arith

pub visits_away : (c n left k : ℕ) → c ≢ k → visits c n (suc left) k ≡ visits ((c + 1) % n) n left k
unfolding visits
visits_away c n left k e = ground arith

back_home : (c d n : ℕ) → c < n → d < n → (c + d) % n ≡ c → d ≡ 0
back_home c d n hc hd turn = elim (dec_lt (c + d) n) [
  | yes l ↦ omega (arith, mod-eq_of_lt l)
  | no l ↦
      let e : c + d ≡ (c + d - n) + n = omega arith in
      let w : (c + d) % n ≡ c + d - n = rw e (grind arith) in omega (arith, w)
]

once_round : (c n : ℕ) → c < n → ((c + 1) % n + (n - 1)) % n ≡ c
once_round c n h =
    let e : c + 1 + (n - 1) ≡ c + n = omega arith in
    mod-add-mod (c + 1) n (n - 1) ∙ (rw e (grind arith))

-- From queue `k` itself, the next visit is `n` rounds away.
visits_near :
    (left c d n k : ℕ)
    → c < n
    → k < n
    → d < n
    → (c + d) % n ≡ k
    → left ≤ n
    → visits c n left k ≡ (if ltb d left then 1 else 0)
unfolding visits
visits_near zero c d n k hc hk hd turn h = ground arith
visits_near (suc left) c d n k hc hk hd turn h = elim (ℕ_discrete c k) [
  | yes e ↦
      let first : d ≡ 0 = back_home c d n hc hd (turn ∙ sym e) in
      let ih =
        visits_near left ((c + 1) % n) (n - 1) n k (omega arith) hk (omega arith)
          (once_round c n hc ∙ e) (omega arith) in
      ground arith
  | no ne ↦
      let (b, near, turn') = step_nearer c d n k hc ne turn in
      let ih =
        visits_near left ((c + 1) % n) b n k (omega arith) hk (omega arith) turn' (omega arith) in
      ground arith
]

pub visits-add :
    (a b c n k : ℕ) → c < n → visits c n (a + b) k ≡ visits c n a k + visits ((c + a) % n) n b k
unfolding visits
visits-add zero b c n k h =
    let e : c + 0 ≡ c = omega arith in
    let f : 0 + b ≡ b = omega arith in rw (e, f, mod-eq_of_lt h) (omega arith)
visits-add (suc a) b c n k h =
    let e : c + 1 + a ≡ c + suc a = omega arith in
    let turn : ((c + 1) % n + a) % n ≡ (c + suc a) % n =
      mod-add-mod (c + 1) n a ∙ ap (λ (t : ℕ). t % n) e in
    let ih = visits-add a b ((c + 1) % n) n k (omega arith) in
    let f : suc a + b ≡ suc (a + b) = omega arith in rw f (omega (arith, rw turn at ih))

-- Two rounds of all the queues come to each of them twice.
pub visits_twice : (c n k : ℕ) → c < n → k < n → visits c n (n * 2) k ≡ 2
visits_twice c n k hc hk =
    let e : n * 2 ≡ n + n = omega arith in
    let (d, l, turn) = place_onto c k n hc hk in
    let home : (c + n) % n ≡ c = grind arith in
    let one = visits_near n c d n k hc hk l turn (omega arith) in
    rw (e, visits-add n n c n k hc, home) (ground (arith, one))

-- One round comes to its own queue only.
pub visits_one_here : (c n k : ℕ) → c ≡ k → visits c n 1 k ≡ 1
visits_one_here c n k e = visits_here c n 0 k e ∙ (rw (visits_none ((c + 1) % n) n k) refl)

pub visits_one_away : (c n k : ℕ) → c ≢ k → visits c n 1 k ≡ 0
visits_one_away c n k e = visits_away c n 0 k e ∙ visits_none ((c + 1) % n) n k

visits_few : (left c n k : ℕ) → c < n → k < n → left ≤ n → visits c n left k ≤ 1
visits_few left c n k hc hk h =
    let (d, l, turn) = place_onto c k n hc hk in
    let one = visits_near left c d n k hc hk l turn h in ground (arith, one)

visits_once_more : (b c n k : ℕ) → c < n → k < n → visits c n (n + b) k ≡ 1 + visits c n b k
visits_once_more b c n k hc hk =
    let (d, l, turn) = place_onto c k n hc hk in
    let home : (c + n) % n ≡ c = grind arith in
    let one = visits_near n c d n k hc hk l turn (omega arith) in
    rw (visits-add n b c n k hc, home) (ground (arith, one))

close :
    (fuel left c n i j : ℕ)
    → left ≤ fuel
    → c < n
    → i < n
    → j < n
    → visits c n left i ≤ visits c n left j + 1
close zero left c n i j h hc hi hj =
    let x = visits_few left c n i hc hi (omega arith) in omega arith
close (suc fuel) left c n i j h hc hi hj = elim (dec_le left n) [
  | yes l ↦ let x = visits_few left c n i hc hi l in omega arith
  | no l ↦
      let ih = close fuel (left - n) c n i j (omega arith) hc hi hj in
      let x = visits_once_more (left - n) c n i hc hi in
      let y = visits_once_more (left - n) c n j hc hj in
      let e : n + (left - n) ≡ left = omega arith in omega (arith, rw e at x, rw e at y)
]

-- However many rounds there are, two queues differ by one visit at most.
pub visits_close :
    (left c n i j : ℕ) → c < n → i < n → j < n → visits c n left i ≤ visits c n left j + 1
visits_close left c n i j hc hi hj = close left left c n i j (omega arith) hc hi hj

-- Where `r` rounds and then `z` more, `w` in all, come to, among `n` queues; `m` is their number
-- then.
pub turn_add :
    (c n m r z w x y : ℕ) → r + z ≡ w → x ≡ (c + r) % n → m ≡ n → y ≡ (x + z) % m → y ≡ (c + w) % n
turn_add c n m r z w x y all first len e =
    let f : c + r + z ≡ c + w = omega arith in
    rw (first, len) at e ∙ mod-add-mod (c + r) n z ∙ ap (λ (k : ℕ). k % n) f
