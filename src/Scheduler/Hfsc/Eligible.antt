-- ===== src/Scheduler/Hfsc/Eligible.antt =====
-- The eligible set of the HFSC scheduler: in order, each flow once, and only flows with a packet.
use hqts.Base.{
  ℕ, ◌==◌, ◌≡◌, ◌≢◌, sym, ap, inl, inr, true, false, List, [], ◌∷◌, some, All, All-mono, lookup,
  insert, lookup-insert, Bool-cases, arith,
}
use hqts.Packet.{PacketDescriptor}
use hqts.Scheduler.Hfsc.Timing.{HfscFlowState}
use hqts.Scheduler.Hfsc.{EligibleFlow, greater, push}

abbrev pub Flows : Type 0
Flows = List (ℕ × HfscFlowState)

-- The entry's flow is configured and holds a packet.
abbrev pub Waits : Flows → EligibleFlow → Type 0
Waits flows e =
    (f : HfscFlowState) × (p : PacketDescriptor) × (ps : List PacketDescriptor) × (lookup e.flow_id
        flows
      ≡ some f)
    × (f.packet_queue ≡ p ∷ ps)

abbrev pub Differs : ℕ → EligibleFlow → Type 0
Differs id x = x.flow_id ≢ id

-- Each entry is not greater than those behind it, and of another flow.
abbrev pub Ordered : List EligibleFlow → Type 0
Ordered [] = Unit
Ordered (e ∷ es) = All (λ x. greater e x ≡ false) es × All (Differs e.flow_id) es × Ordered es

pub record IsScheduled (flows : Flows) (es : List EligibleFlow) : Type 0 where
  pub named : (k : ℕ) (f : HfscFlowState) → lookup k flows ≡ some f → f.flow_id ≡ k
  pub waiting : All (Waits flows) es
  pub ordered : Ordered es

pub All-push :
    (P : EligibleFlow → Type 0) (e : EligibleFlow) (xs : List EligibleFlow)
    → P e
    → All P xs
    → All P (push e xs)
unfolding push
All-push P e [] h hs = (h, tt)
All-push P e (x ∷ xs) h (k, ks) = elim (Bool-cases (greater e x)) [
  | inl g ↦ rw g (k, All-push P e xs h ks)
  | inr g ↦ rw g (h, (k, ks))
]

greater_trans :
    (a b c : EligibleFlow) → greater a b ≡ false → greater b c ≡ false → greater a c ≡ false
unfolding greater
greater_trans a b c h k = ground arith

greater_asym : (a b : EligibleFlow) → greater a b ≡ true → greater b a ≡ false
unfolding greater
greater_asym a b h = ground arith

pub push-Ordered :
    (e : EligibleFlow) (xs : List EligibleFlow)
    → All (Differs e.flow_id) xs
    → Ordered xs
    → Ordered (push e xs)
unfolding push
push-Ordered e [] d o = (tt, tt, tt)
push-Ordered e (x ∷ xs) (d, ds) (least, apart, o) = elim (Bool-cases (greater e x)) [
  | inl g ↦ rw g (
    All-push _ e xs (greater_asym e x g) least,
    All-push _ e xs (λ h. d (sym h)) apart,
    push-Ordered e xs ds o,
  )
  | inr g ↦
      rw g ((g, All-mono _ _ xs (λ y. greater_trans e x y g) least), (d, ds), (least, apart, o))
]

pub All-both :
    (P R : EligibleFlow → Type 0) (es : List EligibleFlow)
    → All P es
    → All R es
    → All (λ x. P x × R x) es
All-both P R [] h k = tt
All-both P R (e ∷ es) (h, hs) (k, ks) = ((h, k), All-both P R es hs ks)

-- A change of one flow that leaves it a packet keeps the others' packets.
pub insert-Waits :
    (flows : Flows) (k : ℕ) (g : HfscFlowState) (p : PacketDescriptor) (ps : List PacketDescriptor)
    (e : EligibleFlow)
    → g.packet_queue ≡ p ∷ ps
    → Waits flows e
    → Waits (insert k g flows) e
insert-Waits flows k g p ps e h (f, q, qs, found, held) = elim (Bool-cases (k == e.flow_id)) [
  | inl same ↦ (g, p, ps, ground (arith, same, lookup-insert k e.flow_id g flows), h)
  | inr other ↦ (f, q, qs, ground (arith, other, found, lookup-insert k e.flow_id g flows), held)
]

pub insert-Waits_other :
    (flows : Flows) (k : ℕ) (g : HfscFlowState) (e : EligibleFlow)
    → Differs k e
    → Waits flows e
    → Waits (insert k g flows) e
insert-Waits_other flows k g e d (f, q, qs, found, held) =
    (f, q, qs, ground (arith, d, found, lookup-insert k e.flow_id g flows), held)

pub insert-named :
    (flows : Flows) (k : ℕ) (g : HfscFlowState)
    → g.flow_id ≡ k
    → ((j : ℕ) (f : HfscFlowState) → lookup j flows ≡ some f → f.flow_id ≡ j)
    → (j : ℕ) (f : HfscFlowState) → lookup j (insert k g flows) ≡ some f
    → f.flow_id ≡ j
insert-named flows k g e named j f found =
    grind (arith, e, named j f, lookup-insert k j g flows, found)

pub insert-found :
    (flows : Flows) (k : ℕ) (g : HfscFlowState) → lookup k (insert k g flows) ≡ some g
insert-found flows k g = ground (arith, lookup-insert k k g flows)

-- A flow that holds a packet is changed.
pub insert-IsScheduled :
    (flows : Flows) (es : List EligibleFlow) (k : ℕ) (g : HfscFlowState) (p : PacketDescriptor)
    (ps : List PacketDescriptor)
    → IsScheduled flows es
    → g.flow_id ≡ k
    → g.packet_queue ≡ p ∷ ps
    → IsScheduled (insert k g flows) es
insert-IsScheduled flows es k g p ps v name held = record {
  named = insert-named flows k g name v.named;
  waiting = All-mono _ _ es (λ x. insert-Waits flows k g p ps x held) v.waiting;
  ordered = v.ordered;
}

-- A flow without an entry is changed.
pub insert-IsScheduled_absent :
    (flows : Flows) (es : List EligibleFlow) (k : ℕ) (g : HfscFlowState)
    → IsScheduled flows es
    → g.flow_id ≡ k
    → All (Differs k) es
    → IsScheduled (insert k g flows) es
insert-IsScheduled_absent flows es k g v name apart = record {
  named = insert-named flows k g name v.named;
  waiting =
      All-mono (λ x. Differs k x × Waits flows x) _ es
        (λ x (d, w). insert-Waits_other flows k g x d w) (All-both _ _ es apart v.waiting);
  ordered = v.ordered;
}

-- A flow that holds a packet and has no entry is changed, and gets one.
pub push-IsScheduled :
    (flows : Flows) (es : List EligibleFlow) (k vft : ℕ) (g : HfscFlowState) (p : PacketDescriptor)
    (ps : List PacketDescriptor)
    → IsScheduled flows es
    → g.flow_id ≡ k
    → g.packet_queue ≡ p ∷ ps
    → All (Differs k) es
    → IsScheduled (insert k g flows) (push (record { virtual_finish_time = vft; flow_id = k }) es)
push-IsScheduled flows es k vft g p ps v name held apart =
    let w = insert-IsScheduled flows es k g p ps v name held in
    record {
      named = w.named;
      waiting = All-push _ _ es (g, p, ps, insert-found flows k g, held) w.waiting;
      ordered = push-Ordered _ es apart v.ordered;
    }

-- A flow whose queue is empty has no entry.
pub absent :
    (flows : Flows) (es : List EligibleFlow) (k : ℕ) (f : HfscFlowState)
    → lookup k flows ≡ some f
    → f.packet_queue ≡ []
    → All (Waits flows) es
    → All (Differs k) es
absent flows es k f found empty = All-mono _ _ es λ e (g, p, ps, there, held) same. absurd (
    ground (
      arith,
      ap (λ (j : ℕ). lookup j flows) same,
      found,
      there,
      held,
      empty,
      ap (λ (x : HfscFlowState). x.packet_queue),
    ))
