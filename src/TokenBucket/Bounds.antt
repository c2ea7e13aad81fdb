-- ===== src/TokenBucket/Bounds.antt =====
-- The tokens of a bucket and its capacity, and what one refill adds.
use hqts.Base.{ℕ, ◌+◌, ◌*◌, ◌/◌, ◌≤◌, ◌<◌, ◌≡◌, ◌^◌, min, arith}
use hqts.TokenBucket.{
  TokenBucket, token_bucket, refill, consume, available_tokens, is_conforming, set_rate,
  set_capacity, elapsed_microseconds,
}

abbrev pub IsWithin : TokenBucket → Type 0
IsWithin b = b.tokens_bytes ≤ b.capacity_bytes

pub refill-IsWithin : (b : TokenBucket) (now : ℕ) → IsWithin b → IsWithin (refill b now)
unfolding refill
refill-IsWithin b now h = ground arith

pub consume-IsWithin : (b : TokenBucket) (n now : ℕ) → IsWithin b → IsWithin (consume b n now).0
unfolding consume
consume-IsWithin b n now h = ground (arith, refill-IsWithin b now h)

-- Every operation leaves the tokens within the capacity, given that they were, and a new bucket has
-- them within its capacity.
pub ops-IsWithin :
    (b : TokenBucket) (n now : ℕ)
    → IsWithin b
    → IsWithin (token_bucket n now now)
      × IsWithin (refill b now)
      × IsWithin (consume b n now).0
      × IsWithin (available_tokens b now).0
      × IsWithin (is_conforming b n now).0
      × IsWithin (set_rate b n now)
      × IsWithin (set_capacity b n now)
unfolding token_bucket available_tokens is_conforming set_rate set_capacity
ops-IsWithin b n now h =
    let r = refill-IsWithin b now h in
    (omega arith, r, consume-IsWithin b n now h, r, r, r, omega arith)

-- From a bucket within its capacity, a refill adds the tokens that the rate earns in the whole
-- microseconds since the last one, rounded down, up to the capacity, as long as neither the product
-- nor the sum wraps.
pub refill_exact :
    (b : TokenBucket) (now : ℕ)
    → IsWithin b
    → elapsed_microseconds b now * b.rate_bps < 2 ^ 64
    → b.tokens_bytes + elapsed_microseconds b now * b.rate_bps / 8_000_000 < 2 ^ 64
    → (refill b now).tokens_bytes
      ≡ min b.capacity_bytes (b.tokens_bytes + elapsed_microseconds b now * b.rate_bps / 8_000_000)
unfolding refill
refill_exact b now h p s = grind arith

-- Even where they wrap, a refill never adds more than that.
pub refill_upper :
    (b : TokenBucket) (now : ℕ)
    → (refill b now).tokens_bytes
      ≤ b.tokens_bytes + elapsed_microseconds b now * b.rate_bps / 8_000_000
unfolding refill
refill_upper b now = ground arith
