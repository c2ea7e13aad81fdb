-- ===== src/Scheduler/Hfsc/Live/Listed.antt =====
-- The flows that wait and the eligible set, as flows change and entries come and go.
use hqts.Base.{
  ℕ, ◌==◌, ◌≡◌, ◌≢◌, refl, sym, ap, subst, ◌⊎◌, inl, inr, List, [], ◌∷◌, none, some, lookup, insert,
  lookup-insert, Bool-cases, arith,
}
use native.Mathlib.Decide.{ℕ_discrete}
use hqts.Packet.{PacketDescriptor}
use hqts.Scheduler.Hfsc.Timing.{HfscFlowState}
use hqts.Scheduler.Hfsc.Eligible.{Flows}
use hqts.Scheduler.Hfsc.Bag.{packets_of}
use hqts.Scheduler.Hfsc.Live.{Enrolled, push_new, push_old}
use hqts.Scheduler.Hfsc.{EligibleFlow, push}

-- No id is there twice.
abbrev pub Unique : Flows → Type 0
Unique [] = Unit
Unique ((k, f) ∷ rest) = (lookup k rest ≡ none) × Unique rest

-- Each flow that holds a packet has an entry, but for flow `id`.
pub record IsListedBut (id : ℕ) (flows : Flows) (es : List EligibleFlow) : Type 0 where
  pub unique : Unique flows
  pub listed :
      (k : ℕ) (f : HfscFlowState) (p : PacketDescriptor) (ps : List PacketDescriptor)
      → lookup k flows ≡ some f
      → f.packet_queue ≡ p ∷ ps
      → (k ≡ id) ⊎ Enrolled k es

-- Each flow that holds a packet has an entry.
pub record IsListed (flows : Flows) (es : List EligibleFlow) : Type 0 where
  pub unique : Unique flows
  pub listed :
      (k : ℕ) (f : HfscFlowState) (p : PacketDescriptor) (ps : List PacketDescriptor)
      → lookup k flows ≡ some f
      → f.packet_queue ≡ p ∷ ps
      → Enrolled k es

pub insert-Unique :
    (k : ℕ) (g : HfscFlowState) (flows : Flows) → Unique flows → Unique (insert k g flows)
unfolding lookup insert
insert-Unique k g [] u = (refl, tt)
insert-Unique k g ((h, f) ∷ rest) (apart, u) = elim (Bool-cases (h == k)) [
  | inl e ↦ rw e (apart, u)
  | inr e ↦ rw e (ground (arith, e, apart, lookup-insert k h g rest), insert-Unique k g rest u)
]

-- Flows that hold nothing one by one hold nothing in all.
pub packets_of_empty :
    (flows : Flows)
    → Unique flows
    → ((k : ℕ) (f : HfscFlowState) → lookup k flows ≡ some f → f.packet_queue ≡ [])
    → packets_of flows ≡ []
unfolding lookup
packets_of_empty [] u h = refl
packets_of_empty ((k, f) ∷ rest) (apart, u) h =
    let first : f.packet_queue ≡ [] = h k f (ground arith) in
    let later = λ (j : ℕ) (g : HfscFlowState) (found : lookup j rest ≡ some g).
      let other : k ≢ j = λ e.
        let same = ap (λ (x : ℕ). lookup x rest) e in absurd (ground (arith, same, found, apart)) in
      h j g (ground (arith, found, other)) in
    rw first (packets_of_empty rest u later)

-- A change of flow `id`, whose entry does not matter.
pub change :
    (id : ℕ) (flows : Flows) (es : List EligibleFlow) (g : HfscFlowState)
    → IsListedBut id flows es
    → IsListedBut id (insert id g flows) es
change id flows es g v = record {
  unique = insert-Unique id g flows v.unique;
  listed = λ k f p ps found held. elim (ℕ_discrete k id) [
    | yes e ↦ inl e
    | no e ↦ v.listed k f p ps (ground (arith, e, found, lookup-insert id k g flows)) held
  ];
}

pub forget :
    (id : ℕ) (flows : Flows) (es : List EligibleFlow) → IsListed flows es → IsListedBut id flows es
forget id flows es v = record {
  unique = v.unique;
  listed = λ k f p ps found held. inr (v.listed k f p ps found held);
}

-- The entry of flow `id` is there, or the flow holds nothing.
pub complete :
    (id : ℕ) (flows : Flows) (es : List EligibleFlow) (g : HfscFlowState)
    → IsListedBut id flows es
    → (g.packet_queue ≡ []) ⊎ Enrolled id es
    → IsListed (insert id g flows) es
complete id flows es g v there = record {
  unique = insert-Unique id g flows v.unique;
  listed = λ k f p ps found held. elim (ℕ_discrete k id) [
    | yes e ↦ elim there [
      | inl empty ↦
          let same : g ≡ f = ground (arith, e, found, lookup-insert id k g flows) in
          let queue = ap (λ (x : HfscFlowState). x.packet_queue) same in
          absurd (ground (arith, queue, held, empty))
      | inr entry ↦ subst (λ (j : ℕ). Enrolled j es) (sym e) entry
    ]
    | no e ↦ elim (v.listed k f p ps (ground (arith, e, found, lookup-insert id k g flows)) held) [
      | inl same ↦ absurd (e same)
      | inr entry ↦ entry
    ]
  ];
}

pub enter :
    (id vft : ℕ) (flows : Flows) (es : List EligibleFlow)
    → IsListedBut id flows es
    → let es' = push (record { virtual_finish_time = vft; flow_id = id }) es in
      IsListedBut id flows es' × Enrolled id es'
enter id vft flows es v = (
  record {
    unique = v.unique;
    listed = λ k f p ps found held. elim (v.listed k f p ps found held) [
      | inl same ↦ inl same
      | inr entry ↦ inr (push_old _ es k entry)
    ];
  },
  push_new _ es,
)

-- The first entry goes.
pub leave :
    (next : EligibleFlow) (rest : List EligibleFlow) (flows : Flows)
    → IsListed flows (next ∷ rest)
    → IsListedBut next.flow_id flows rest
leave next rest flows v = record {
  unique = v.unique;
  listed = λ k f p ps found held. elim (v.listed k f p ps found held) [
    | inl same ↦ inl (sym same)
    | inr entry ↦ inr entry
  ];
}
