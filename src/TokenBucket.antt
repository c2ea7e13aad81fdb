-- ===== src/TokenBucket.antt =====
-- hqts/include/hqts/core/token_bucket.h and hqts/src/core/token_bucket.cpp.
-- `steady_clock::now()` is an argument of each call, in nanoseconds since the clock's epoch; tokens
-- are bytes. The subtraction of times stops at 0, as only a positive difference is used.
pub mod Bounds
pub mod Rate
pub mod Starvation
use hqts.Base.{ℕ, ◌-◌, ◌*◌, ◌/◌, Bool, true, false, min, ltb, leb, if◌then◌else◌, add64, mul64}

pub record TokenBucket : Type 0 where
  pub capacity_bytes : ℕ
  pub tokens_bytes : ℕ
  pub rate_bps : ℕ
  pub last_refill_time : ℕ

-- The constructor: initially full.
unfoldable pub token_bucket : ℕ → ℕ → ℕ → TokenBucket
token_bucket rate capacity now = record {
  capacity_bytes = capacity;
  tokens_bytes = capacity;
  rate_bps = rate;
  last_refill_time = now;
}

-- duration_cast<microseconds>(now - last_refill_time_).count()
abbrev pub elapsed_microseconds : TokenBucket → ℕ → ℕ
elapsed_microseconds b now = (now - b.last_refill_time) / 1000

-- (elapsed * rate_bps_) / (8 * 1000000), where the product is a `uint64_t`.
abbrev pub new_tokens : TokenBucket → ℕ → ℕ
new_tokens b now = mul64 (elapsed_microseconds b now) b.rate_bps / (8 * 1_000_000)

refilled : TokenBucket → ℕ → ℕ
refilled b now =
    if ltb 0 (elapsed_microseconds b now)
    then (if ltb 0 (new_tokens b now)
        then min b.capacity_bytes (add64 b.tokens_bytes (new_tokens b now))
        else b.tokens_bytes)
    else b.tokens_bytes

unfoldable pub refill : TokenBucket → ℕ → TokenBucket
unfolding refilled
refill b now = record b { tokens_bytes = refilled b now; last_refill_time = now }

take_tokens : TokenBucket → ℕ → TokenBucket × Bool
take_tokens b n =
    if leb n b.tokens_bytes
    then (record b { tokens_bytes = b.tokens_bytes - n }, true)
    else (b, false)

unfoldable pub consume : TokenBucket → ℕ → ℕ → TokenBucket × Bool
unfolding take_tokens
consume b n now = take_tokens (refill b now) n

pub available_tokens : TokenBucket → ℕ → TokenBucket × ℕ
available_tokens b now = (refill b now, (refill b now).tokens_bytes)

pub is_conforming : TokenBucket → ℕ → ℕ → TokenBucket × Bool
is_conforming b n now = (refill b now, leb n (refill b now).tokens_bytes)

pub set_rate : TokenBucket → ℕ → ℕ → TokenBucket
set_rate b rate now = record (refill b now) { rate_bps = rate }

pub set_capacity : TokenBucket → ℕ → ℕ → TokenBucket
set_capacity b capacity now = record (refill b now) {
  capacity_bytes = capacity;
  tokens_bytes = min (refill b now).tokens_bytes capacity;
}
