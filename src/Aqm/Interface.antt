-- ===== src/Aqm/Interface.antt =====
-- What the schedulers use of a queue: the operations of `RedAqmQueue`, and its laws as a FIFO that
-- may refuse a packet. hqts/include/hqts/scheduler/queue_types.h has the plain queue.
use hqts.Base.{
  ℕ, ◌≡◌, Bool, List, [], ◌∷◌, ◌++◌, length, null, if◌then◌else◌, Result, ok, err, runtime_error,
}
use hqts.Packet.{PacketDescriptor}

pub record AqmQueue (Q : Type 0) : Type 0 where
  pub enqueue : Q → PacketDescriptor → Q × Bool
  pub dequeue : Q → Q × Result PacketDescriptor
  pub front : Q → Result PacketDescriptor
  pub is_empty : Q → Bool
  pub get_current_packet_count : Q → ℕ
  -- The packets, first come first.
  pub contents : Q → List PacketDescriptor
  pub contents-enqueue :
      (q : Q) (p : PacketDescriptor)
      → contents (enqueue q p).0 ≡ (if (enqueue q p).1 then contents q ++ p ∷ [] else contents q)
  pub dequeue_first :
      (q : Q) (p : PacketDescriptor) (ps : List PacketDescriptor)
      → contents q ≡ p ∷ ps
      → ((dequeue q).1 ≡ ok p) × (contents (dequeue q).0 ≡ ps)
  pub dequeue_empty : (q : Q) → contents q ≡ [] → dequeue q ≡ (q, err runtime_error)
  pub front_first :
      (q : Q) (p : PacketDescriptor) (ps : List PacketDescriptor)
      → contents q ≡ p ∷ ps
      → front q ≡ ok p
  pub is_empty_lem : (q : Q) → is_empty q ≡ null (contents q)
  pub get_current_packet_count_lem : (q : Q) → get_current_packet_count q ≡ length (contents q)

-- The constructor: from parameters and a reading of the system clock, an empty queue.
pub record AqmFactory (P Q : Type 0) ⦃a : AqmQueue Q⦄ : Type 0 where
  pub make : P → ℕ → Q
  pub contents-make : (p : P) (now : ℕ) → a.contents (make p now) ≡ []
