-- ===== src/Tests/Buckets.antt =====
-- Buckets.
use hqts.Base.{◌+◌, ◌≡◌, refl, [], ◌∷◌, arith}
use hqts.TokenBucket.{TokenBucket, refill, consume}
use hqts.TokenBucket.Rate.{Calls, consume_all, granted}
use hqts.TokenBucket.Starvation.{Frequent-starves}

-- A byte each microsecond.
abbrev bucket : TokenBucket
bucket = record {
  capacity_bytes = 1000;
  tokens_bytes = 500;
  rate_bps = 8_000_000;
  last_refill_time = 0;
}

-- A byte each second.
abbrev slow_bucket : TokenBucket
slow_bucket = record bucket { rate_bps = 8 }

abbrev calls : Calls
calls = (200_000, 600) ∷ (300_000, 400) ∷ (900_000_000, 50) ∷ []

granted-calls : granted bucket calls ≡ 650
unfolding granted consume refill
granted-calls = refl

granted_slow : granted slow_bucket calls ≡ 450
unfolding granted consume refill
granted_slow = refl

Frequent-starves_example :
    granted slow_bucket calls + (consume_all slow_bucket calls).tokens_bytes
    ≡ slow_bucket.tokens_bytes
Frequent-starves_example =
    Frequent-starves slow_bucket calls (omega arith, (omega arith, (omega arith, tt)))
