-- ===== src/Shaper/Policing.antt =====
-- What a policy's buckets let pass of a run of its packets, by colour.
use hqts.Base.{
  ℕ, ◌+◌, ◌-◌, ◌*◌, ◌≤◌, ◌≡◌, refl, List, [], ◌∷◌, map, if◌then◌else◌, arith, Bool, true, false,
}
use hqts.Packet.{PacketDescriptor, ConformanceLevel, green, yellow, red}
use hqts.TokenBucket.{consume}
use hqts.TokenBucket.Rate.{Calls, granted, Ascending, granted_rate}
use hqts.Policy.{ShapingPolicy}
use hqts.Shaper.{Readings, apply_token_buckets}

-- The packets of a policy in order, each with the readings of its call.
abbrev pub Packets : Type 0
Packets = List (PacketDescriptor × Readings)

-- The bytes that get colour `level`, as `apply_token_buckets` meets the packets one by one.
abbrev pub same_colour : ConformanceLevel → ConformanceLevel → Bool
same_colour green green = true
same_colour yellow yellow = true
same_colour red red = true
same_colour _ _ = false

unfoldable pub coloured : ConformanceLevel → ShapingPolicy → Packets → ℕ
coloured level policy [] = 0
coloured level policy ((packet, at) ∷ rest) =
    let (policy', given) = apply_token_buckets packet policy at in
    (if same_colour given level then packet.packet_length_bytes else 0)
    + coloured level policy' rest

abbrev pub cir_calls : Packets → Calls
cir_calls = map (λ (packet, at). (at.cir, packet.packet_length_bytes))

abbrev pub pir_calls : Packets → Calls
pir_calls = map (λ (packet, at). (at.pir, packet.packet_length_bytes))

-- The colour by the answers of the two buckets.
abbrev colour_by : Bool → Bool → ConformanceLevel
colour_by g y = if g then green else if y then yellow else red

green_part :
    (g y : Bool) (n : ℕ)
    → (if same_colour (colour_by g y) green then n else 0) ≡ (if g then n else 0)
green_part true y n = refl
green_part false true n = refl
green_part false false n = refl

yellow_part :
    (g y : Bool) (n : ℕ)
    → (if same_colour (colour_by g y) yellow then n else 0) ≤ (if y then n else 0)
yellow_part true y n = omega arith
yellow_part false true n = omega arith
yellow_part false false n = omega arith

-- Green bytes are those that the CIR bucket grants.
coloured_green :
    (policy : ShapingPolicy) (packets : Packets)
    → coloured green policy packets ≡ granted policy.cir_bucket (cir_calls packets)
unfolding coloured granted apply_token_buckets
coloured_green policy [] = refl
coloured_green policy ((packet, at) ∷ rest) =
    let ih = coloured_green (apply_token_buckets packet policy at).0 rest in
    let n = packet.packet_length_bytes in
    let g = (consume policy.cir_bucket n at.cir).1 in
    let y = (consume policy.pir_bucket n at.pir).1 in omega (arith, green_part g y n, ih)

coloured_yellow :
    (policy : ShapingPolicy) (packets : Packets)
    → coloured yellow policy packets ≤ granted policy.pir_bucket (pir_calls packets)
unfolding coloured granted apply_token_buckets
coloured_yellow policy [] = omega arith
coloured_yellow policy ((packet, at) ∷ rest) =
    let ih = coloured_yellow (apply_token_buckets packet policy at).0 rest in
    let n = packet.packet_length_bytes in
    let g = (consume policy.cir_bucket n at.cir).1 in
    let y = (consume policy.pir_bucket n at.pir).1 in omega (arith, yellow_part g y n, ih)

-- On clocks that do not run backwards: of any run of packets of one policy, the green bytes are at
-- most the tokens of the CIR bucket at the start and what the CIR earns in the time that passed, and
-- the yellow bytes at most the same of the PIR bucket (in units of a token over eight billion, so
-- that nothing is rounded).
pub coloured_rate :
    (policy : ShapingPolicy) (packets : Packets) (u : ℕ)
    → Ascending policy.cir_bucket.last_refill_time (cir_calls packets) u
    → Ascending policy.pir_bucket.last_refill_time (pir_calls packets) u
    → let cir = policy.cir_bucket in
      let pir = policy.pir_bucket in
      (8_000_000_000 * coloured green policy packets
        ≤ 8_000_000_000 * cir.tokens_bytes + (u - cir.last_refill_time) * cir.rate_bps)
      × (8_000_000_000 * coloured yellow policy packets
          ≤ 8_000_000_000 * pir.tokens_bytes + (u - pir.last_refill_time) * pir.rate_bps)
coloured_rate policy packets u h k = (
  omega (
    arith,
    coloured_green policy packets,
    granted_rate policy.cir_bucket (cir_calls packets) u h,
  ),
  omega (
    arith,
    coloured_yellow policy packets,
    granted_rate policy.pir_bucket (pir_calls packets) u k,
  ),
)
