-- ===== src/Aqm/Queue.antt =====
-- `RedAqmQueue` as the queue that the schedulers use.
use hqts.Base.{
  ◌≡◌, refl, List, [], ◌∷◌, ◌++◌, length, null, if◌then◌else◌, ok, err, runtime_error, arith,
}
use hqts.Packet.{PacketDescriptor}
use hqts.Aqm.Numerics.{Double, Uniform}
use hqts.Aqm.Interface.{AqmQueue, AqmFactory}
use hqts.Aqm.{
  RedAqmParameters, RedAqmQueue, red_aqm_queue, enqueue, admit, drop_or_accept, accept, dequeue,
  front, is_empty, get_current_packet_count, update_average_queue_size,
}

module _ {W G : Type 0} ⦃d : Double W⦄ ⦃u : Uniform W G⦄ where
  pub buffer-enqueue :
      (q : RedAqmQueue W G) (p : PacketDescriptor)
      → (enqueue q p).0.packet_buffer
        ≡ (if (enqueue q p).1 then q.packet_buffer ++ p ∷ [] else q.packet_buffer)
  unfolding enqueue admit drop_or_accept accept update_average_queue_size
  buffer-enqueue q p = ground arith

  pub dequeue_first :
      (q : RedAqmQueue W G) (p : PacketDescriptor) (ps : List PacketDescriptor)
      → q.packet_buffer ≡ p ∷ ps
      → ((dequeue q).1 ≡ ok p) × ((dequeue q).0.packet_buffer ≡ ps)
  unfolding dequeue update_average_queue_size
  dequeue_first q p ps e = (ground arith, ground arith)

  pub dequeue_empty :
      (q : RedAqmQueue W G) → q.packet_buffer ≡ [] → dequeue q ≡ (q, err runtime_error)
  unfolding dequeue
  dequeue_empty q e = ground arith

  pub front_first :
      (q : RedAqmQueue W G) (p : PacketDescriptor) (ps : List PacketDescriptor)
      → q.packet_buffer ≡ p ∷ ps
      → front q ≡ ok p
  unfolding front
  front_first q p ps e = ground arith

  pub is_empty_lem : (q : RedAqmQueue W G) → is_empty q ≡ null q.packet_buffer
  unfolding is_empty
  is_empty_lem q = refl

  pub count_lem : (q : RedAqmQueue W G) → get_current_packet_count q ≡ length q.packet_buffer
  unfolding get_current_packet_count
  count_lem q = refl

  instance unfoldable pub red_queue : AqmQueue (RedAqmQueue W G)
  red_queue = record {
    enqueue = enqueue;
    dequeue = dequeue;
    front = front;
    is_empty = is_empty;
    get_current_packet_count = get_current_packet_count;
    contents = λ q. q.packet_buffer;
    contents-enqueue = buffer-enqueue;
    dequeue_first = dequeue_first;
    dequeue_empty = dequeue_empty;
    front_first = front_first;
    is_empty_lem = is_empty_lem;
    get_current_packet_count_lem = count_lem;
  }

  instance unfoldable pub red_factory : AqmFactory (RedAqmParameters W) (RedAqmQueue W G)
  unfolding red_queue red_aqm_queue
  red_factory = record { make = red_aqm_queue; contents-make = λ p now. refl }
