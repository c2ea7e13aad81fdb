-- ===== src/Scheduler/Drr.antt =====
-- hqts/include/hqts/scheduler/drr_scheduler.h and hqts/src/scheduler/drr_scheduler.cpp, over any AQM
-- queue. A deficit is an `int64_t` that starts at 0, grows by quanta and falls only by a length
-- that it covers, so it is a number; its overflow is undefined and not modelled.
pub mod Invariant
pub mod Visits
pub mod Order
pub mod Progress
pub mod Rounds
pub mod Oversized
pub mod Patience
pub mod Turns
pub mod Phases
pub mod Equal
pub mod Account
pub mod Compete
pub mod InOrder
pub mod Fairness
pub mod Configured
use hqts.Base.{
  ℕ, zero, suc, ◌+◌, ◌-◌, ◌*◌, ◌%◌, ◌==◌, Bool, true, false, List, [], ◌∷◌, ◌++◌, Option, none,
  some, length, null, get_elem?, set, ltb, leb, if◌then◌else◌, Result, ok, err, ◌>>=◌,
  invalid_argument, out_of_range, runtime_error, logic_error, undefined, lookup, insert,
}
use hqts.Packet.{PacketDescriptor}
use hqts.Aqm.Interface.{AqmQueue, AqmFactory}

pub record QueueConfig (P : Type 0) : Type 0 where
  pub id : ℕ
  pub quantum_bytes : ℕ
  pub aqm_params : P

pub record InternalQueueState (Q : Type 0) : Type 0 where
  pub packet_queue : Q
  pub quantum_bytes : ℕ
  pub deficit_counter : ℕ
  pub external_id : ℕ

pub record DrrScheduler (Q : Type 0) : Type 0 where
  pub queues : List (InternalQueueState Q)
  pub queue_id_to_index : List (ℕ × ℕ)
  pub current_queue_index : ℕ
  pub total_packets : ℕ
  pub is_configured : Bool

module _ {P Q : Type 0} ⦃a : AqmQueue Q⦄ ⦃f : AqmFactory P Q⦄ where
  unfoldable pub internal_queue_state : ℕ → ℕ → P → ℕ → InternalQueueState Q
  internal_queue_state ext_id q_bytes aqm_p now = record {
    packet_queue = f.make aqm_p now;
    quantum_bytes = q_bytes;
    deficit_counter = 0;
    external_id = ext_id;
  }

  -- One round of the constructor's loop.
  unfoldable pub add_queue : DrrScheduler Q → ℕ → QueueConfig P → ℕ → Result (DrrScheduler Q)
  unfolding internal_queue_state
  add_queue s i qc now =
      if qc.quantum_bytes == 0
      then err invalid_argument
      else elim (lookup qc.id s.queue_id_to_index) [
        | some _ ↦ err invalid_argument
        | none ↦ ok (record s {
          queues = s.queues ++ internal_queue_state qc.id qc.quantum_bytes qc.aqm_params now ∷ [];
          queue_id_to_index = insert qc.id i s.queue_id_to_index;
        })
      ]

  -- `clock i` is the reading of the system clock that seeds queue `i`.
  unfoldable pub add_queues :
      List (QueueConfig P) → (ℕ → ℕ) → ℕ → DrrScheduler Q → Result (DrrScheduler Q)
  add_queues [] clock i s = ok s
  add_queues (qc ∷ rest) clock i s = add_queue s i qc (clock i) >>= add_queues rest clock (suc i)

  -- The constructor.
  unfoldable pub drr_scheduler : List (QueueConfig P) → (ℕ → ℕ) → Result (DrrScheduler Q)
  drr_scheduler queue_configs clock =
      if null queue_configs
      then err invalid_argument
      else (add_queues queue_configs clock 0 (record {
        queues = [];
        queue_id_to_index = [];
        current_queue_index = 0;
        total_packets = 0;
        is_configured = false;
      })
          >>= λ s. ok (record s { is_configured = true }))

module _ {Q : Type 0} where
  pub is_empty : DrrScheduler Q → Bool
  is_empty s = if s.is_configured then s.total_packets == 0 else true

  pub get_num_queues : DrrScheduler Q → ℕ
  get_num_queues s = if s.is_configured then length s.queues else 0

-- What one round of the loop of `dequeue` does: it returns, or it goes on with the next queue.
pub data Visit (Q : Type 0) : Type 0 where
  returned : DrrScheduler Q → Result PacketDescriptor → Visit Q
  moved_on : DrrScheduler Q → Visit Q

module _ {Q : Type 0} ⦃a : AqmQueue Q⦄ where
  pub enqueue_in :
      DrrScheduler Q
      → ℕ
      → PacketDescriptor
      → Option (InternalQueueState Q)
      → DrrScheduler Q × Result (Unit {0})
  enqueue_in s i p none = (s, err undefined)
  enqueue_in s i p (some q) =
      let (pq, stored) = a.enqueue q.packet_queue p in
      (
        record s {
          queues = set s.queues i (record q { packet_queue = pq });
          total_packets = if stored then s.total_packets + 1 else s.total_packets;
        },
        ok tt,
      )

  -- `packet.priority` is the id of the queue.
  pub enqueue : DrrScheduler Q → PacketDescriptor → DrrScheduler Q × Result (Unit {0})
  enqueue s p =
      if s.is_configured
      then elim (lookup p.priority s.queue_id_to_index) [
        | none ↦ (s, err out_of_range)
        | some i ↦ enqueue_in s i p (get_elem? s.queues i)
      ]
      else (s, err logic_error)

  abbrev pub next_index : DrrScheduler Q → ℕ
  next_index s = (s.current_queue_index + 1) % length s.queues

  -- The front packet, of `len` bytes, leaves the current queue, whose state is `q`.
  pub serve : DrrScheduler Q → InternalQueueState Q → ℕ → Visit Q
  serve s q len =
      let (pq, r) = a.dequeue q.packet_queue in
      elim r [
        | ok p ↦
            returned
              (record s {
                queues =
                    set s.queues s.current_queue_index
                      (record q { packet_queue = pq; deficit_counter = q.deficit_counter - len });
                total_packets = s.total_packets - 1;
                current_queue_index = next_index s;
              })
              (ok p)
        | err e ↦
            returned
              (record s {
                queues = set s.queues s.current_queue_index (record q { packet_queue = pq });
              })
              (err e)
      ]

  -- The current queue, in state `q`, holds a packet and has had its quantum.
  pub try_front : DrrScheduler Q → InternalQueueState Q → Visit Q
  try_front s q = elim (a.front q.packet_queue) [
    | err e ↦ returned (record s { queues = set s.queues s.current_queue_index q }) (err e)
    | ok p ↦
        if leb p.packet_length_bytes q.deficit_counter
        then serve s q p.packet_length_bytes
        else moved_on (record s {
          queues = set s.queues s.current_queue_index q;
          current_queue_index = next_index s;
        })
  ]

  pub visit_queue : DrrScheduler Q → InternalQueueState Q → Visit Q
  visit_queue s q =
      if a.is_empty q.packet_queue
      then moved_on (record s { current_queue_index = next_index s })
      else try_front s (record q { deficit_counter = q.deficit_counter + q.quantum_bytes })

  pub visit : DrrScheduler Q → Visit Q
  visit s = elim (get_elem? s.queues s.current_queue_index) [
    | none ↦ returned s (err undefined)
    | some q ↦ visit_queue s q
  ]

  -- The `while` loop, with `n` search attempts left.
  pub search : DrrScheduler Q → ℕ → DrrScheduler Q × Result PacketDescriptor
  search s zero = (s, if ltb 0 s.total_packets then err logic_error else err runtime_error)
  search s (suc n) = elim (visit s) [ returned t r ↦ (t, r) | moved_on t ↦ search t n ]

  pub dequeue : DrrScheduler Q → DrrScheduler Q × Result PacketDescriptor
  dequeue s =
      if s.is_configured
      then (if is_empty s then (s, err runtime_error) else search s (length s.queues * 2))
      else (s, err logic_error)

  pub get_queue_size : DrrScheduler Q → ℕ → Result ℕ
  get_queue_size s queue_id =
      if s.is_configured
      then elim (lookup queue_id s.queue_id_to_index) [
        | none ↦ err out_of_range
        | some i ↦ elim (get_elem? s.queues i) [
          | none ↦ err undefined
          | some q ↦ ok (a.get_current_packet_count q.packet_queue)
        ]
      ]
      else err logic_error
