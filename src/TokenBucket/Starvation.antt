-- ===== src/TokenBucket/Starvation.antt =====
-- Calls of `consume` that come too soon for one whole token.
use hqts.Base.{ℕ, ◌+◌, ◌-◌, ◌*◌, ◌/◌, ◌<◌, ◌≡◌, [], ◌∷◌, if◌then◌else◌, arith}
use hqts.TokenBucket.{TokenBucket, refill, consume, elapsed_microseconds}
use hqts.TokenBucket.Rate.{Calls, consume_all, granted}

-- Each call comes before the rate has earned one whole token since the call before it.
abbrev pub Frequent : ℕ → ℕ → Calls → Type 0
Frequent rate t [] = Unit
Frequent rate t ((now, n) ∷ calls) = ((now - t) / 1000 * rate < 8_000_000) × Frequent rate now calls

consume_early :
    (b : TokenBucket) (n now : ℕ)
    → elapsed_microseconds b now * b.rate_bps < 8_000_000
    → let (c, done) = consume b n now in
      ((if done then n else 0) + c.tokens_bytes ≡ b.tokens_bytes)
      × (c.last_refill_time ≡ now)
      × (c.rate_bps ≡ b.rate_bps)
unfolding consume refill
consume_early b n now h = (ground arith, ground arith, ground arith)

-- If every call comes before the rate has earned one whole token since the call before, then what
-- the calls are granted and the tokens left are together exactly the tokens at the start, however
-- many the calls.
pub Frequent-starves :
    (b : TokenBucket) (calls : Calls)
    → Frequent b.rate_bps b.last_refill_time calls
    → granted b calls + (consume_all b calls).tokens_bytes ≡ b.tokens_bytes
unfolding granted consume_all
Frequent-starves b [] h = omega arith
Frequent-starves b ((now, n) ∷ calls) h =
    let (sum, time, rate) = consume_early b n now h.0 in
    omega (arith, sum, Frequent-starves (consume b n now).0 calls (rw (time, rate) h.1))
