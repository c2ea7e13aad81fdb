-- ===== src/Scheduler/Interface.antt =====
-- hqts/include/hqts/scheduler/scheduler_interface.h: what the pipeline calls, and the contract for
-- the implementations: a scheduler is a bag of packets that stores some of the packets it is given.
use mathlib.Core.List.{Perm}
use hqts.Base.{◌≡◌, Bool, true, false, List, ◌∷◌, null, Result, ok, err}
use hqts.Packet.{PacketDescriptor}

pub record Scheduler (S : Type 0) : Type 0 where
  pub enqueue : S → PacketDescriptor → S × Result (Unit {0})
  pub dequeue : S → S × Result PacketDescriptor
  pub is_empty : S → Result Bool

-- What one `enqueue` does to the packets held: it adds the packet if it stores it, else nothing.
abbrev pub AddsIf : Bool → List PacketDescriptor → PacketDescriptor → List PacketDescriptor → Type 0
AddsIf true before p after = Perm after (p ∷ before)
AddsIf false before p after = after ≡ before

-- What `dequeue` may do: hand out one packet held, or fail and keep them.
abbrev pub TakesOrFails :
    List PacketDescriptor → Result PacketDescriptor → List PacketDescriptor → Type 0
TakesOrFails before (ok p) after = Perm before (p ∷ after)
TakesOrFails before (err e) after = after ≡ before

pub record IsScheduler (S : Type 0) ⦃s : Scheduler S⦄ : Type 1 where
  pub Inv : S → Type 0
  pub packets : S → List PacketDescriptor
  -- Whether `enqueue` stores the packet.
  pub stores : S → PacketDescriptor → Bool
  pub enqueue-Inv : (x : S) (p : PacketDescriptor) → Inv x → Inv (s.enqueue x p).0
  pub dequeue-Inv : (x : S) → Inv x → Inv (s.dequeue x).0
  pub is_empty_lem : (x : S) → Inv x → s.is_empty x ≡ ok (null (packets x))
  pub packets-enqueue :
      (x : S) (p : PacketDescriptor)
      → Inv x
      → AddsIf (stores x p) (packets x) p (packets (s.enqueue x p).0)
  pub packets-dequeue :
      (x : S) → Inv x → TakesOrFails (packets x) (s.dequeue x).1 (packets (s.dequeue x).0)
