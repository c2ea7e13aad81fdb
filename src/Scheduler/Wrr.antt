-- ===== src/Scheduler/Wrr.antt =====
-- hqts/include/hqts/scheduler/wrr_scheduler.h and hqts/src/scheduler/wrr_scheduler.cpp, over any AQM
-- queue. A deficit is an `int32_t`; its overflow is undefined and not modelled, so it is an integer.
pub mod Invariant
pub mod Scan
pub mod Order
pub mod Contract
pub mod Weights
pub mod Configured
pub mod Account
pub mod Fairness
pub mod InOrder
use hqts.Base.{
  ℕ, zero, suc, ◌+◌, ◌-◌, ◌%◌, ◌^◌, ◌==◌, Bool, true, false, not, ◌&&◌, List, [], ◌∷◌, ◌++◌, map,
  Option, none, some, length, null, get_elem?, set, ltb, if◌then◌else◌, Result, ok, err, ◌>>=◌,
  invalid_argument, out_of_range, runtime_error, logic_error, undefined, lookup, insert,
}
use hqts.Base.Int.{ℤ, pos, negsuc, ◌+ℤ◌, ◌-ℤ◌, ltb_ℤ}
use hqts.Packet.{PacketDescriptor}
use hqts.Aqm.Interface.{AqmQueue, AqmFactory}

pub record QueueConfig (P : Type 0) : Type 0 where
  pub id : ℕ
  pub weight : ℕ
  pub aqm_params : P

pub record InternalQueueState (Q : Type 0) : Type 0 where
  pub packet_queue : Q
  pub weight : ℕ
  pub current_deficit : ℤ
  pub external_id : ℕ

pub record WrrScheduler (Q : Type 0) : Type 0 where
  pub queues : List (InternalQueueState Q)
  pub queue_id_to_index : List (ℕ × ℕ)
  pub current_queue_index : ℕ
  pub total_packets : ℕ
  pub is_configured : Bool

-- static_cast<int32_t> of a `uint32_t`.
abbrev pub to_int32 : ℕ → ℤ
to_int32 w = if ltb w (2 ^ 31) then pos w else negsuc (2 ^ 32 - w - 1)

module _ {P Q : Type 0} ⦃a : AqmQueue Q⦄ ⦃f : AqmFactory P Q⦄ where
  unfoldable pub internal_queue_state : ℕ → ℕ → P → ℕ → InternalQueueState Q
  internal_queue_state ext_id w aqm_p now = record {
    packet_queue = f.make aqm_p now;
    weight = w;
    current_deficit = to_int32 w;
    external_id = ext_id;
  }

  -- One round of the constructor's loop.
  unfoldable pub add_queue : WrrScheduler Q → ℕ → QueueConfig P → ℕ → Result (WrrScheduler Q)
  unfolding internal_queue_state
  add_queue s i qc now =
      if qc.weight == 0 then err invalid_argument else elim (lookup qc.id s.queue_id_to_index) [
        | some _ ↦ err invalid_argument
        | none ↦ ok (record s {
          queues = s.queues ++ internal_queue_state qc.id qc.weight qc.aqm_params now ∷ [];
          queue_id_to_index = insert qc.id i s.queue_id_to_index;
        })
      ]

  -- `clock i` is the reading of the system clock that seeds queue `i`.
  unfoldable pub add_queues :
      List (QueueConfig P) → (ℕ → ℕ) → ℕ → WrrScheduler Q → Result (WrrScheduler Q)
  add_queues [] clock i s = ok s
  add_queues (qc ∷ rest) clock i s = add_queue s i qc (clock i) >>= add_queues rest clock (suc i)

  -- The constructor.
  unfoldable pub wrr_scheduler : List (QueueConfig P) → (ℕ → ℕ) → Result (WrrScheduler Q)
  wrr_scheduler queue_configs clock =
      if null queue_configs
      then err invalid_argument
      else (add_queues queue_configs clock 0 (record {
        queues = [];
        queue_id_to_index = [];
        current_queue_index = 0;
        total_packets = 0;
        is_configured = false;
      })
          >>= λ s. ok (record s { is_configured = true }))

module _ {Q : Type 0} where
  abbrev pub replenish : InternalQueueState Q → InternalQueueState Q
  replenish q = record q { current_deficit = q.current_deficit +ℤ to_int32 q.weight }

  pub replenish_all_deficits : WrrScheduler Q → WrrScheduler Q
  replenish_all_deficits s = record s { queues = map replenish s.queues }

  pub is_empty : WrrScheduler Q → Result Bool
  is_empty s = if s.is_configured then ok (s.total_packets == 0) else err logic_error

  pub get_num_queues : WrrScheduler Q → Result ℕ
  get_num_queues s = if s.is_configured then ok (length s.queues) else err logic_error

module _ {Q : Type 0} ⦃a : AqmQueue Q⦄ where
  pub enqueue_in :
      WrrScheduler Q
      → ℕ
      → PacketDescriptor
      → Option (InternalQueueState Q)
      → WrrScheduler Q × Result (Unit {0})
  enqueue_in s i p none = (s, err undefined)
  enqueue_in s i p (some q) =
      let (pq, stored) = a.enqueue q.packet_queue p in
      (
        record s {
          queues = set s.queues i (record q { packet_queue = pq });
          total_packets = if stored then s.total_packets + 1 else s.total_packets;
        },
        ok tt,
      )

  -- `packet.priority` is the id of the queue.
  pub enqueue : WrrScheduler Q → PacketDescriptor → WrrScheduler Q × Result (Unit {0})
  enqueue s p =
      if s.is_configured
      then elim (lookup p.priority s.queue_id_to_index) [
        | none ↦ (s, err out_of_range)
        | some i ↦ enqueue_in s i p (get_elem? s.queues i)
      ]
      else (s, err logic_error)

  abbrev pub can_send : InternalQueueState Q → Bool
  can_send q = not (a.is_empty q.packet_queue) && ltb_ℤ (pos 0) q.current_deficit

  -- The packet of queue `k`, whose state is `q`.
  pub serve : WrrScheduler Q → ℕ → InternalQueueState Q → WrrScheduler Q × Result PacketDescriptor
  serve s k q =
      let (pq, r) = a.dequeue q.packet_queue in
      elim r [
        | ok p ↦ (
          record s {
            queues =
                set s.queues k
                  (record q { packet_queue = pq; current_deficit = q.current_deficit -ℤ pos 1 });
            total_packets = s.total_packets - 1;
            current_queue_index = (k + 1) % length s.queues;
          },
          ok p,
        )
        | err e ↦ (record s { queues = set s.queues k (record q { packet_queue = pq }) }, err e)
      ]

  -- The `for` loop from round `i`, with `n` rounds left; `none` where no queue can send.
  pub scan : WrrScheduler Q → ℕ → ℕ → Option (WrrScheduler Q × Result PacketDescriptor)
  scan s i zero = none
  scan s i (suc n) =
      let k = (s.current_queue_index + i) % length s.queues in
      elim (get_elem? s.queues k) [
        | none ↦ some (s, err undefined)
        | some q ↦ if can_send q then some (serve s k q) else scan s (i + 1) n
      ]

  -- The second pass of the `while` loop: the deficits have been replenished.
  pub second_pass : WrrScheduler Q → WrrScheduler Q × Result PacketDescriptor
  second_pass s = elim (scan s 0 (length s.queues)) [ some r ↦ r | none ↦ (s, err logic_error) ]

  -- The `while` loop, which ends in its second pass at the latest.
  pub first_pass : WrrScheduler Q → WrrScheduler Q × Result PacketDescriptor
  first_pass s = elim (scan s 0 (length s.queues)) [
    | some r ↦ r
    | none ↦ second_pass (replenish_all_deficits s)
  ]

  pub dequeue : WrrScheduler Q → WrrScheduler Q × Result PacketDescriptor
  dequeue s =
      if s.is_configured
      then (if s.total_packets == 0 then (s, err runtime_error) else first_pass s)
      else (s, err logic_error)

  pub get_queue_size : WrrScheduler Q → ℕ → Result ℕ
  get_queue_size s queue_id =
      if s.is_configured
      then elim (lookup queue_id s.queue_id_to_index) [
        | none ↦ err out_of_range
        | some i ↦ elim (get_elem? s.queues i) [
          | none ↦ err undefined
          | some q ↦ ok (a.get_current_packet_count q.packet_queue)
        ]
      ]
      else err logic_error
