-- ===== src/Aqm.antt =====
-- hqts/include/hqts/scheduler/aqm_queue.h and hqts/src/scheduler/aqm_queue.cpp.
-- The `double` arithmetic and the random generator are parameters (`Aqm/Numerics.antt`);
-- `packets_since_last_drop_` is an `int` whose overflow at 2 ^ 31 is undefined and not modelled.
pub mod Numerics
pub mod Interface
pub mod Bytes
pub mod Drops
pub mod Queue
use hqts.Base.{
  ℕ, ◌+◌, ◌==◌, Bool, true, false, ◌&&◌, ◌||◌, List, [], ◌∷◌, ◌++◌, length, null, ltb, leb, add32,
  sub32, if◌then◌else◌, Result, ok, err, invalid_argument, runtime_error,
}
use hqts.Packet.{PacketDescriptor}
use Numerics.{Double, Uniform}

pub record RedAqmParameters (W : Type 0) : Type 0 where
  pub min_threshold_bytes : ℕ
  pub max_threshold_bytes : ℕ
  pub max_probability : W
  pub ewma_weight : W
  pub queue_capacity_bytes : ℕ

pub record RedAqmQueue (W G : Type 0) : Type 0 where
  pub packet_buffer : List PacketDescriptor
  pub params : RedAqmParameters W
  pub average_queue_size_bytes : W
  pub current_total_bytes : ℕ
  pub packets_since_last_drop : ℕ
  pub random_generator : G

module _ {W : Type 0} ⦃d : Double W⦄ where
  open d use {of_uint, nought, one, epsilon, add, sub, mul, div, lt, le}

  -- The checks of the constructor of `RedAqmParameters`.
  refused : ℕ → ℕ → W → W → ℕ → Bool
  refused min_t max_t max_p weight capacity =
      min_t == 0
      || max_t == 0
      || capacity == 0
      || leb max_t min_t
      || ltb capacity max_t
      || le weight nought
      || lt one weight
      || le max_p nought
      || lt one max_p

  pub red_aqm_parameters : ℕ → ℕ → W → W → ℕ → Result (RedAqmParameters W)
  unfolding refused
  red_aqm_parameters min_t max_t max_p weight capacity =
      if refused min_t max_t max_p weight capacity
      then err invalid_argument
      else ok (record {
        min_threshold_bytes = min_t;
        max_threshold_bytes = max_t;
        max_probability = max_p;
        ewma_weight = weight;
        queue_capacity_bytes = capacity;
      })

  -- std::min on `double`.
  abbrev pub min_double : W → W → W
  min_double a b = if lt b a then b else a

module _ {W G : Type 0} ⦃d : Double W⦄ ⦃u : Uniform W G⦄ where
  open d use {of_uint, nought, one, epsilon, add, sub, mul, div, lt, le}

  -- The constructor; the generator is seeded with a reading of the system clock.
  pub red_aqm_queue : RedAqmParameters W → ℕ → RedAqmQueue W G
  red_aqm_queue p now = record {
    packet_buffer = [];
    params = p;
    average_queue_size_bytes = nought;
    current_total_bytes = 0;
    packets_since_last_drop = 0;
    random_generator = u.seed now;
  }

module _ {W G : Type 0} ⦃d : Double W⦄ where
  open d use {of_uint, nought, one, epsilon, add, sub, mul, div, lt, le}

  unfoldable pub update_average_queue_size : RedAqmQueue W G → RedAqmQueue W G
  update_average_queue_size q = record q {
    average_queue_size_bytes =
        add (mul (sub one q.params.ewma_weight) q.average_queue_size_bytes)
          (mul q.params.ewma_weight (of_uint q.current_total_bytes));
  }

  unfoldable pub calculate_drop_probability : RedAqmQueue W G → W
  calculate_drop_probability q =
      if lt q.average_queue_size_bytes (of_uint q.params.min_threshold_bytes)
      then nought
      else (if le (of_uint q.params.max_threshold_bytes) q.average_queue_size_bytes
          then q.params.max_probability
          else mul
              (div (sub q.average_queue_size_bytes (of_uint q.params.min_threshold_bytes))
                (of_uint (sub32 q.params.max_threshold_bytes q.params.min_threshold_bytes)))
              q.params.max_probability)

  -- p_b, raised with the packets since the last drop.
  pub gentle : RedAqmQueue W G → W → W
  gentle q p_b =
      let denominator = sub one (mul (of_uint q.packets_since_last_drop) p_b) in
      min_double (if le denominator epsilon then one else div p_b denominator) one

  pub final_drop_prob : RedAqmQueue W G → W
  final_drop_prob q =
      let p_b = calculate_drop_probability q in if lt nought p_b then gentle q p_b else nought

module _ {W G : Type 0} ⦃d : Double W⦄ ⦃u : Uniform W G⦄ where
  open d use {nought, lt}

  -- The packet is stored.
  pub accept : RedAqmQueue W G → PacketDescriptor → RedAqmQueue W G × Bool
  accept q p = (
    record q {
      packet_buffer = q.packet_buffer ++ p ∷ [];
      current_total_bytes = add32 q.current_total_bytes p.packet_length_bytes;
      packets_since_last_drop = q.packets_since_last_drop + 1;
    },
    true,
  )

  -- The generator is asked only where the probability is above 0.
  pub drop_or_accept : RedAqmQueue W G → W → PacketDescriptor → RedAqmQueue W G × Bool
  drop_or_accept q prob p =
      let (x, g) = u.draw q.random_generator in
      if lt nought prob
      then (if lt x prob
          then (record q { packets_since_last_drop = 0; random_generator = g }, false)
          else accept (record q { random_generator = g }) p)
      else accept q p

  -- What `enqueue` does once the average is up to date.
  pub admit : RedAqmQueue W G → PacketDescriptor → RedAqmQueue W G × Bool
  admit q p =
      if ltb q.params.queue_capacity_bytes (add32 q.current_total_bytes p.packet_length_bytes)
      then (q, false)
      else drop_or_accept q (final_drop_prob q) p

  pub enqueue : RedAqmQueue W G → PacketDescriptor → RedAqmQueue W G × Bool
  enqueue q p = admit (update_average_queue_size q) p

  pop_front : RedAqmQueue W G → List PacketDescriptor → RedAqmQueue W G × Result PacketDescriptor
  pop_front q [] = (q, err runtime_error)
  pop_front q (p ∷ rest) = (
    update_average_queue_size (record q {
      packet_buffer = rest;
      current_total_bytes = sub32 q.current_total_bytes p.packet_length_bytes;
    }),
    ok p,
  )

  pub dequeue : RedAqmQueue W G → RedAqmQueue W G × Result PacketDescriptor
  unfolding pop_front
  dequeue q = pop_front q q.packet_buffer

first : List PacketDescriptor → Result PacketDescriptor
first [] = err runtime_error
first (p ∷ rest) = ok p

module _ {W G : Type 0} where
  pub is_empty : RedAqmQueue W G → Bool
  is_empty q = null q.packet_buffer

  pub get_current_packet_count : RedAqmQueue W G → ℕ
  get_current_packet_count q = length q.packet_buffer

  pub get_current_byte_size : RedAqmQueue W G → ℕ
  get_current_byte_size q = q.current_total_bytes

  pub get_average_queue_size_bytes : RedAqmQueue W G → W
  get_average_queue_size_bytes q = q.average_queue_size_bytes

  pub get_parameters : RedAqmQueue W G → RedAqmParameters W
  get_parameters q = q.params

  pub front : RedAqmQueue W G → Result PacketDescriptor
  unfolding first
  front q = first q.packet_buffer
