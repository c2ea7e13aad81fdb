-- ===== src/Scheduler/Drr/Phases.antt =====
-- Which of two queues has the next turn as the search of `dequeue` goes round.
use native.Mathlib.Decide.{dec_lt, dec_le}
use native.Mathlib.Nat.{mod-eq_of_lt}
use hqts.Base.{
  ℕ, ◌+◌, ◌-◌, ◌%◌, ◌≤◌, ◌<◌, ◌==◌, ◌≡◌, ◌≢◌, sym, ap, ◌∙◌, ◌⊎◌, inl, inr, ◌&&◌, ltb, leb,
  if◌then◌else◌, arith,
}

-- 1 where the next of the queues `i` and `j` from queue `c` on is `j`, for `i` below `j`.
pub phase : ℕ → ℕ → ℕ → ℕ
phase c i j = if ltb i c && leb c j then 1 else 0

-- A number below twice the modulus.
wrap : (x n : ℕ) → x < n + n → ((x < n) × (x % n ≡ x)) ⊎ ((n ≤ x) × (x % n ≡ x - n))
wrap x n h = elim (dec_lt x n) [
  | yes l ↦ inl (l, mod-eq_of_lt l)
  | no l ↦
      let e : x ≡ (x - n) + n = omega arith in
      let f : (x - n + n) % n ≡ x - n = grind arith in
      inr (omega arith, ap (λ (y : ℕ). y % n) e ∙ f)
]

-- The rounds below `r` from `c` on do not come to `i`.
avoid :
    (c r n i : ℕ)
    → c < n
    → i < n
    → ((e : ℕ) → e < r → (c + e) % n ≢ i)
    → ((c ≤ i → c + r ≤ i) × (i < c → c + r ≤ i + n))
avoid c r n i hc hi apart = (
  λ l. elim (dec_le (c + r) i) [
    | yes h ↦ h
    | no h ↦
        let e : c + (i - c) ≡ i = omega arith in
        absurd (apart (i - c) (omega arith) (ap (λ (y : ℕ). y % n) e ∙ mod-eq_of_lt hi))
  ],
  λ l. elim (dec_le (c + r) (i + n)) [
    | yes h ↦ h
    | no h ↦
        let e : c + (i + n - c) ≡ i + n = omega arith in
        let f : (i + n) % n ≡ i = grind arith in
        absurd (apart (i + n - c) (omega arith) (ap (λ (y : ℕ). y % n) e ∙ f))
  ],
)

pub phase_step :
    (c r n i j k : ℕ)
    → c < n
    → i < j
    → j < n
    → r < n
    → (c + r) % n ≡ k
    → ((e : ℕ) → e < r → (c + e) % n ≢ i)
    → ((e : ℕ) → e < r → (c + e) % n ≢ j)
    → (if k == i then 1 else 0) + phase c i j ≡ (if k == j then 1 else 0) + phase ((k + 1) % n) i j
unfolding phase
phase_step c r n i j k hc hij hj hr turn ni nj =
    let (x, x') = avoid c r n i hc (omega arith) ni in
    let (y, y') = avoid c r n j hc hj nj in
    elim (wrap (c + r) n (omega arith)) [
      | inl (l, e) ↦
          let here = sym turn ∙ e in
          elim (wrap (k + 1) n (omega arith)) [
            | inl (m, f) ↦ rw f (ground arith)
            | inr (m, f) ↦ rw f (ground arith)
          ]
      | inr (l, e) ↦
          let here = sym turn ∙ e in
          elim (wrap (k + 1) n (omega arith)) [
            | inl (m, f) ↦ rw f (ground arith)
            | inr (m, f) ↦ rw f (ground arith)
          ]
    ]

pub phase_le : (c i j : ℕ) → phase c i j ≤ 1
unfolding phase
phase_le c i j = ground arith
