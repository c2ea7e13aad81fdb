-- ===== src/Aqm/Bytes.antt =====
-- The byte count of the queue, a `uint32_t`, and the bytes that it holds.
use hqts.Base.{ℕ, ◌+◌, ◌≤◌, ◌<◌, ◌^◌, ◌≡◌, refl, ap, true, List, [], ◌∷◌, ◌++◌, arith}
use hqts.Packet.{PacketDescriptor}
use hqts.Aqm.Numerics.{Double, Uniform, IsIeee}
use hqts.Aqm.Drops.{sampled, enqueue_below_min}
use hqts.Aqm.{
  RedAqmQueue, enqueue, admit, drop_or_accept, accept, dequeue, pop_front,
  update_average_queue_size,
}

abbrev pub total_bytes : List PacketDescriptor → ℕ
total_bytes [] = 0
total_bytes (p ∷ ps) = p.packet_length_bytes + total_bytes ps

total_bytes-append :
    (ps qs : List PacketDescriptor) → total_bytes (ps ++ qs) ≡ total_bytes ps + total_bytes qs
total_bytes-append [] qs = omega arith
total_bytes-append (p ∷ ps) qs = omega (arith, total_bytes-append ps qs)

-- The count is the bytes stored, and these fit the capacity, a `uint32_t`.
pub record IsCounted {W G : Type 0} (q : RedAqmQueue W G) : Type 0 where
  pub counted : q.current_total_bytes ≡ total_bytes q.packet_buffer
  pub fits : total_bytes q.packet_buffer ≤ q.params.queue_capacity_bytes
  pub capacity_lt : q.params.queue_capacity_bytes < 2 ^ 32

module _ {W G : Type 0} ⦃d : Double W⦄ ⦃u : Uniform W G⦄ where
  -- From a queue that counts its bytes exactly, within a capacity that together with the length of
  -- the packet is less than 2 ^ 32, `enqueue` keeps the bytes held within the capacity and counted
  -- exactly, whether it accepts the packet or not.
  pub enqueue-IsCounted :
      (q : RedAqmQueue W G) (p : PacketDescriptor)
      → IsCounted q
      → q.params.queue_capacity_bytes + p.packet_length_bytes < 2 ^ 32
      → IsCounted (enqueue q p).0
  unfolding enqueue admit drop_or_accept accept update_average_queue_size
  enqueue-IsCounted q p v h = ground (arith, total_bytes-append q.packet_buffer (p ∷ []))

  -- `dequeue`, also of an empty queue, keeps the bytes held within the capacity and counted
  -- exactly, given that they were.
  pub dequeue-IsCounted : (q : RedAqmQueue W G) → IsCounted q → IsCounted (dequeue q).0
  unfolding dequeue pop_front update_average_queue_size
  dequeue-IsCounted q v = pop q.packet_buffer refl
    where
      pop : (ps : List PacketDescriptor) → q.packet_buffer ≡ ps → IsCounted (pop_front q ps).0
      pop [] e = v
      pop (p ∷ rest) e = let t = ap total_bytes e in ground arith

  -- Under the laws of IEEE comparison, from a queue that counts its bytes exactly: where the bytes
  -- stored and the length of a packet come to 2 ^ 32 or more, and to no more than the capacity
  -- above that, a packet that meets an average below the lower threshold is stored, and the queue
  -- then holds more bytes than its capacity.
  pub enqueue_overflow :
      IsIeee W
      → (q : RedAqmQueue W G) (p : PacketDescriptor) → IsCounted q
      → 2 ^ 32 ≤ q.current_total_bytes + p.packet_length_bytes
      → q.current_total_bytes + p.packet_length_bytes ≤ 2 ^ 32 + q.params.queue_capacity_bytes
      → d.lt (sampled q).average_queue_size_bytes (d.of_uint q.params.min_threshold_bytes) ≡ true
      → ((enqueue q p).1 ≡ true)
        × (q.params.queue_capacity_bytes < total_bytes (enqueue q p).0.packet_buffer)
  enqueue_overflow laws q p v lo hi below =
      let (done, buffer, _) = enqueue_below_min laws q p (omega arith) below in
      (done, rw buffer (omega (arith, total_bytes-append q.packet_buffer (p ∷ []), v.counted)))
