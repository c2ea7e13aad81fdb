-- ===== src/Aqm/Drops.antt =====
-- When RED drops a packet.
use hqts.Base.{◌≤◌, ◌≡◌, true, false, ◌++◌, [], ◌∷◌, arith, add32}
use hqts.Packet.{PacketDescriptor}
use hqts.Aqm.Numerics.{Double, Uniform, IsIeee, IsUniform}
use hqts.Aqm.{
  RedAqmQueue, enqueue, admit, drop_or_accept, accept, update_average_queue_size,
  calculate_drop_probability, final_drop_prob, gentle,
}

module _ {W G : Type 0} ⦃d : Double W⦄ ⦃u : Uniform W G⦄ where
  open d use {of_uint, nought, one, epsilon, sub, mul, lt, le}

  -- The average as `enqueue` brings it up to date, before it decides.
  abbrev pub sampled : RedAqmQueue W G → RedAqmQueue W G
  sampled q = update_average_queue_size q

  abbrev pub HasRoom : RedAqmQueue W G → PacketDescriptor → Type 0
  HasRoom q p = add32 q.current_total_bytes p.packet_length_bytes ≤ q.params.queue_capacity_bytes

  -- Under the laws of IEEE comparison, a packet that finds room while the average is below the
  -- lower threshold is stored behind the others, and the random generator is not asked.
  pub enqueue_below_min :
      IsIeee W
      → (q : RedAqmQueue W G) (p : PacketDescriptor) → HasRoom q p
      → lt (sampled q).average_queue_size_bytes (of_uint q.params.min_threshold_bytes) ≡ true
      → ((enqueue q p).1 ≡ true)
        × ((enqueue q p).0.packet_buffer ≡ q.packet_buffer ++ p ∷ [])
        × ((enqueue q p).0.random_generator ≡ q.random_generator)
  unfolding enqueue admit drop_or_accept accept final_drop_prob calculate_drop_probability
      update_average_queue_size
  enqueue_below_min laws q p room below =
      let l = laws.lt_irrefl nought in (ground arith, ground arith, ground arith)

  gentle_le_one : IsIeee W → (q : RedAqmQueue W G) (p_b : W) → lt one (gentle q p_b) ≡ false
  unfolding gentle
  gentle_le_one laws q p_b = ground (arith, laws.lt_irrefl one)

  -- Under the laws of IEEE comparison, the probability of a drop never exceeds 1.
  pub final_drop_prob_le_one : IsIeee W → (q : RedAqmQueue W G) → lt one (final_drop_prob q) ≡ false
  unfolding final_drop_prob
  final_drop_prob_le_one laws q =
      ground (arith, gentle_le_one laws q (calculate_drop_probability q), laws.one-lt-nought)

  gentle_full :
      IsIeee W
      → (q : RedAqmQueue W G) (p_b : W)
      → le (sub one (mul (of_uint q.packets_since_last_drop) p_b)) epsilon ≡ true
      → gentle q p_b ≡ one
  unfolding gentle
  gentle_full laws q p_b h = ground (arith, laws.lt_irrefl one)

  drop_certain :
      IsIeee W
      → IsUniform W G
      → (q : RedAqmQueue W G) (p : PacketDescriptor)
      → ((drop_or_accept q one p).1 ≡ false)
        × ((drop_or_accept q one p).0.packets_since_last_drop ≡ 0)
        × ((drop_or_accept q one p).0.packet_buffer ≡ q.packet_buffer)
  unfolding drop_or_accept
  drop_certain laws uniform q p =
      let a = laws.nought-lt-one in
      let b = uniform.draw-lt-one q.random_generator in (ground arith, ground arith, ground arith)

  admit_room :
      (q : RedAqmQueue W G) (p : PacketDescriptor)
      → HasRoom q p
      → admit q p ≡ drop_or_accept q (final_drop_prob q) p
  unfolding admit
  admit_room q p room = ground arith

  final_pos :
      (q : RedAqmQueue W G)
      → lt nought (calculate_drop_probability q) ≡ true
      → final_drop_prob q ≡ gentle q (calculate_drop_probability q)
  unfolding final_drop_prob
  final_pos q pos = ground arith

  -- Under the laws of IEEE comparison and of the distribution, once so many packets have come since
  -- the last drop that 1 - count * p_b is not above 1e-9, where p_b is above 0, a packet that finds
  -- room is dropped whatever number is drawn, and the count starts again at 0.
  pub enqueue_forced_drop :
      IsIeee W
      → IsUniform W G
      → (q : RedAqmQueue W G) (p : PacketDescriptor) → HasRoom (sampled q) p
      → lt nought (calculate_drop_probability (sampled q)) ≡ true
      → le
          (sub one (
            mul
              (of_uint (sampled q).packets_since_last_drop)
              (calculate_drop_probability (sampled q))))
          epsilon
        ≡ true
      → ((enqueue q p).1 ≡ false)
        × ((enqueue q p).0.packets_since_last_drop ≡ 0)
        × ((enqueue q p).0.packet_buffer ≡ q.packet_buffer)
  unfolding enqueue update_average_queue_size
  enqueue_forced_drop laws uniform q p room pos full =
      rw
        (
          admit_room (sampled q) p room,
          final_pos (sampled q) pos,
          gentle_full laws (sampled q) _ full,
        )
        (drop_certain laws uniform (sampled q) p)
