-- ===== src/Scheduler/Lanes.antt =====
-- The order in which packets of one priority leave a scheduler that keeps a queue for each.
pub mod Order
use mathlib.Core.List.{Sublist, append_assoc, append-nil, nil-sublist}
use mathlib.Core.List.Sublist
use mathlib.Core.Option.{some-injective}
use native.Mathlib.Decide.{ℕ_discrete}
use hqts.Base.{
  ℕ, ◌==◌, ◌≡◌, ◌≢◌, refl, sym, ap, ◌∙◌, ◌⊎◌, inl, inr, List, [], ◌∷◌, ◌++◌, Option, none, some,
  All, All-append, All-mono, subst, if◌then◌else◌, Result, ok, err, arith, get_elem?, set, Bool,
  true, false,
}
use hqts.Packet.{PacketDescriptor}
use hqts.Scheduler.Rows.{row, row-set_self, row-set_other, row-set_same}
use hqts.Scheduler.Interface.{Scheduler}

-- The packets of priority `c` in a list.
abbrev pub of_class : ℕ → List PacketDescriptor → List PacketDescriptor
of_class c [] = []
of_class c (p ∷ ps) = if p.priority == c then p ∷ of_class c ps else of_class c ps

-- What `dequeue` may do to the queues: the first packet of one queue leaves, or nothing changes.
abbrev pub Leaves :
    (ℕ → List PacketDescriptor) → Result PacketDescriptor → (ℕ → List PacketDescriptor) → Type 0
Leaves before (ok p) after =
    (i : ℕ) × (before i ≡ p ∷ after i) × ((k : ℕ) → i ≢ k → after k ≡ before k)
Leaves before (err e) after = (k : ℕ) → after k ≡ before k

-- What `enqueue` may do to the queues, where `home` is the queue for the packet's priority.
abbrev pub Enters :
    (ℕ → List PacketDescriptor) → PacketDescriptor → Option ℕ → (ℕ → List PacketDescriptor) → Type 0
Enters before p home after =
    ((k : ℕ) → after k ≡ before k)
    ⊎ ((i : ℕ) × (home ≡ some i)
        × (after i ≡ before i ++ p ∷ [])
        × ((k : ℕ) → i ≢ k → after k ≡ before k))

-- A write of one queue, seen by index; `c` gives the contents of a queue.
module _ {A : Type 0} (c : A → List PacketDescriptor) where
  pub set-Leaves :
      (qs : List A) (i : ℕ) (q w : A) (p : PacketDescriptor) (ps : List PacketDescriptor)
      → get_elem? qs i ≡ some q
      → c q ≡ p ∷ ps
      → c w ≡ ps
      → Leaves (row c qs) (ok p) (row c (set qs i w))
  set-Leaves qs i q w p ps g e rest =
      let here = row-set_self c qs i q w g in
      let before : row c qs i ≡ p ∷ ps = rw g e in
      (i, rw (here, rest) before, λ k ne. row-set_other c qs i k w ne)

  pub set-Enters :
      (qs : List A) (i : ℕ) (q w : A) (p : PacketDescriptor) (home : Option ℕ) (stored : Bool)
      → get_elem? qs i ≡ some q
      → home ≡ some i
      → c w ≡ (if stored then c q ++ p ∷ [] else c q)
      → Enters (row c qs) p home (row c (set qs i w))
  set-Enters qs i q w p home true g at_i more =
      let before : row c qs i ≡ c q = rw g refl in
      inr
        (i, at_i, rw before (row-set_self c qs i q w g ∙ more), λ k ne. row-set_other c qs i k w ne)
  set-Enters qs i q w p home false g at_i same = inl (row-set_same c qs i q w g same)

-- A scheduler with a queue for each priority.
pub record HasLanes (S : Type 0) ⦃s : Scheduler S⦄ : Type 1 where
  pub Inv : S → Type 0
  pub lane : S → ℕ → List PacketDescriptor
  pub lane_of : S → ℕ → Option ℕ
  pub enqueue-Inv : (x : S) (p : PacketDescriptor) → Inv x → Inv (s.enqueue x p).0
  pub dequeue-Inv : (x : S) → Inv x → Inv (s.dequeue x).0
  pub lane_of-enqueue :
      (x : S) (p : PacketDescriptor) (c : ℕ) → Inv x → lane_of (s.enqueue x p).0 c ≡ lane_of x c
  pub lane_of-dequeue : (x : S) (c : ℕ) → Inv x → lane_of (s.dequeue x).0 c ≡ lane_of x c
  pub lane-enqueue :
      (x : S) (p : PacketDescriptor)
      → Inv x
      → Enters (lane x) p (lane_of x p.priority) (lane (s.enqueue x p).0)
  pub lane-dequeue : (x : S) → Inv x → Leaves (lane x) (s.dequeue x).1 (lane (s.dequeue x).0)

abbrev pub note : Result PacketDescriptor → List PacketDescriptor → List PacketDescriptor
note (ok p) ps = p ∷ ps
note (err e) ps = ps

-- The packets that the calls bring.
abbrev pub arrivals : List (Option PacketDescriptor) → List PacketDescriptor
arrivals [] = []
arrivals (some p ∷ cs) = p ∷ arrivals cs
arrivals (none ∷ cs) = arrivals cs

module _ {S : Type 0} ⦃s : Scheduler S⦄ where
  -- Calls in a row, where `some p` is `enqueue` of `p` and `none` is `dequeue`: the scheduler after
  -- them, and the packets that the calls of `dequeue` return.
  abbrev pub run : List (Option PacketDescriptor) → S → S × List PacketDescriptor
  run [] x = (x, [])
  run (some p ∷ cs) x = run cs (s.enqueue x p).0
  run (none ∷ cs) x = let (y, r) = s.dequeue x in let (z, ps) = run cs y in (z, note r ps)
