-- ===== src/Shaper/Colours.antt =====
-- The three colours of `apply_token_buckets`, and what each leaves in the buckets.
use hqts.Base.{ℕ, ◌+◌, ◌≤◌, ◌<◌, ◌≡◌, refl, ◌↔◌, leb, if◌then◌else◌, arith}
use hqts.Packet.{PacketDescriptor, ConformanceLevel, green, yellow, red}
use hqts.TokenBucket.{TokenBucket, refill, consume}
use hqts.TokenBucket.Bounds.{IsWithin, consume-IsWithin}
use hqts.Policy.{ShapingPolicy}
use hqts.Shaper.{Readings, apply_token_buckets}

-- The tokens of a bucket after a refill.
abbrev pub held : TokenBucket → ℕ → ℕ
held b now = (refill b now).tokens_bytes

-- What a packet of length `n` and of a colour takes from the CIR bucket.
abbrev pub cir_charge : ConformanceLevel → ℕ → ℕ
cir_charge green n = n
cir_charge _ n = 0

-- A packet is green exactly when the refilled CIR bucket covers its length, yellow exactly when
-- that bucket does not and the refilled PIR bucket does, and red exactly when neither does.
pub apply_token_buckets_colour :
    (packet : PacketDescriptor) (policy : ShapingPolicy) (at : Readings)
    → let n = packet.packet_length_bytes in
      let level = (apply_token_buckets packet policy at).1 in
      ((level ≡ green) ↔ (n ≤ held policy.cir_bucket at.cir))
      × ((level ≡ yellow)
          ↔ ((held policy.cir_bucket at.cir < n) × (n ≤ held policy.pir_bucket at.pir)))
      × ((level ≡ red)
          ↔ ((held policy.cir_bucket at.cir < n) × (held policy.pir_bucket at.pir < n)))
unfolding apply_token_buckets consume
apply_token_buckets_colour packet policy at = ground arith

-- On buckets within their capacities: a green packet is paid from the CIR bucket, and no other one
-- is; a packet that the PIR bucket covers is paid from it, of whatever colour, and no other one is.
-- Both buckets stay within their capacities, and nothing but the buckets of the policy changes.
pub apply_token_buckets_charge :
    (packet : PacketDescriptor) (policy : ShapingPolicy) (at : Readings)
    → IsWithin policy.cir_bucket
    → IsWithin policy.pir_bucket
    → let n = packet.packet_length_bytes in
      let (policy', level) = apply_token_buckets packet policy at in
      let pir = held policy.pir_bucket at.pir in
      (policy'.cir_bucket.tokens_bytes + cir_charge level n ≡ held policy.cir_bucket at.cir)
      × (policy'.pir_bucket.tokens_bytes + (if leb n pir then n else 0) ≡ pir)
      × IsWithin policy'.cir_bucket
      × IsWithin policy'.pir_bucket
      × (record policy' { cir_bucket = policy.cir_bucket; pir_bucket = policy.pir_bucket } ≡ policy)
unfolding apply_token_buckets consume
apply_token_buckets_charge packet policy at c p =
    let n = packet.packet_length_bytes in
    (
      ground arith,
      ground arith,
      consume-IsWithin policy.cir_bucket n at.cir c,
      consume-IsWithin policy.pir_bucket n at.pir p,
      refl,
    )
