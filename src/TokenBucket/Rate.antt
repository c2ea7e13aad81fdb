-- ===== src/TokenBucket/Rate.antt =====
-- What a bucket grants over a run of `consume` calls.
use hqts.Base.{ℕ, ◌+◌, ◌-◌, ◌*◌, ◌/◌, ◌≤◌, ◌≡◌, ap, List, [], ◌∷◌, if◌then◌else◌, arith}
use native.Mathlib.Nat.{mul-le-mul, le_refl}
use hqts.TokenBucket.{TokenBucket, refill, consume, elapsed_microseconds}
use hqts.TokenBucket.Bounds.{refill_upper}

-- Calls of `consume` in order: the time of each and the bytes that it asks for.
abbrev pub Calls : Type 0
Calls = List (ℕ × ℕ)

unfoldable pub consume_all : TokenBucket → Calls → TokenBucket
consume_all b [] = b
consume_all b ((now, n) ∷ calls) = consume_all (consume b n now).0 calls

-- The bytes that the calls are granted.
unfoldable pub granted : TokenBucket → Calls → ℕ
granted b [] = 0
granted b ((now, n) ∷ calls) =
    (if (consume b n now).1 then n else 0) + granted (consume b n now).0 calls

-- The steady clock: times do not fall, from `t` up to `u`.
abbrev pub Ascending : ℕ → Calls → ℕ → Type 0
Ascending t [] u = t ≤ u
Ascending t ((now, n) ∷ calls) u = (t ≤ now) × Ascending now calls u

Ascending-le : (t : ℕ) (calls : Calls) (u : ℕ) → Ascending t calls u → t ≤ u
Ascending-le t [] u h = h
Ascending-le t ((now, n) ∷ calls) u h = omega (arith, Ascending-le now calls u h.1)

-- Eight billion: the nanoseconds of a second times the bits of a byte.
earned :
    (elapsed rate gap : ℕ)
    → elapsed * 1000 ≤ gap
    → 8_000_000_000 * (elapsed * rate / 8_000_000) ≤ gap * rate
earned elapsed rate gap h = omega (arith, mul-le-mul h (le_refl rate))

consume-refill :
    (b : TokenBucket) (n now : ℕ)
    → let (c, done) = consume b n now in
      ((if done then n else 0) + c.tokens_bytes ≡ (refill b now).tokens_bytes)
      × (c.last_refill_time ≡ now)
      × (c.rate_bps ≡ b.rate_bps)
unfolding consume refill
consume-refill b n now = (ground arith, ground arith, ground arith)

consume_step :
    (b : TokenBucket) (n now : ℕ)
    → 8_000_000_000 * ((if (consume b n now).1 then n else 0) + (consume b n now).0.tokens_bytes)
      ≤ 8_000_000_000 * b.tokens_bytes + (now - b.last_refill_time) * b.rate_bps
consume_step b n now = omega (
  arith,
  (consume-refill b n now).0,
  refill_upper b now,
  earned (elapsed_microseconds b now) b.rate_bps (now - b.last_refill_time) (omega arith),
)

later :
    (t now u rate : ℕ) → t ≤ now → now ≤ u → (u - t) * rate ≡ (u - now) * rate + (now - t) * rate
later t now u rate h k =
    let e : u - t ≡ (u - now) + (now - t) = omega arith in omega (arith, ap (λ (x : ℕ). x * rate) e)

-- Over any run of `consume` calls on a clock that does not run backwards, the bytes granted and the
-- tokens left are at most the tokens at the start and what the rate earns in the time that passed
-- (in units of a token over eight billion, so that nothing is rounded).
pub granted_rate :
    (b : TokenBucket) (calls : Calls) (u : ℕ)
    → Ascending b.last_refill_time calls u
    → 8_000_000_000 * (granted b calls + (consume_all b calls).tokens_bytes)
      ≤ 8_000_000_000 * b.tokens_bytes + (u - b.last_refill_time) * b.rate_bps
unfolding granted consume_all
granted_rate b [] u h = omega arith
granted_rate b ((now, n) ∷ calls) u h =
    let (sum, time, rate) = consume-refill b n now in
    let c = (consume b n now).0 in
    let ih = granted_rate c calls u (rw time h.1) in
    omega (
      arith,
      rw (time, rate) at ih,
      consume_step b n now,
      later b.last_refill_time now u b.rate_bps h.0 (Ascending-le now calls u h.1),
    )
