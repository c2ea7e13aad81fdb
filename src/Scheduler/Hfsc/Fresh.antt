-- ===== src/Scheduler/Hfsc/Fresh.antt =====
-- Flows as the constructor of the HFSC scheduler stores them.
use hqts.Base.{
  ℕ, ◌==◌, ◌≡◌, refl, lookup-insert, ap, sym, ◌∙◌, ◌++◌, none, inl, inr, List, [], ◌∷◌, some,
  lookup, insert, Bool-cases, Option-cases, arith,
}
use hqts.Scheduler.Hfsc.Timing.{HfscFlowState}
use hqts.Scheduler.Hfsc.Configure.{Flows}
use hqts.Packet.{PacketDescriptor}
use hqts.Scheduler.Hfsc.Live.Listed.{Unique, insert-Unique, IsListed}
use hqts.Scheduler.Hfsc.Bag.{packets_of, insert_same}
use hqts.Scheduler.Hfsc.Eligible.{insert-named}

-- Each flow is stored under its own id, and holds no packet.
pub record IsFresh (flows : Flows) : Type 0 where
  pub named : (k : ℕ) (f : HfscFlowState) → lookup k flows ≡ some f → f.flow_id ≡ k
  pub idle : (k : ℕ) (f : HfscFlowState) → lookup k flows ≡ some f → f.packet_queue ≡ []
  pub none_held : packets_of flows ≡ []
  pub distinct : Unique flows

insert_new :
    (flows : Flows) (k : ℕ) (g : HfscFlowState)
    → lookup k flows ≡ none
    → g.packet_queue ≡ []
    → packets_of (insert k g flows) ≡ packets_of flows
unfolding lookup insert
insert_new [] k g e h = rw h refl
insert_new ((held, f) ∷ rest) k g e h = elim (Bool-cases (held == k)) [
  | inl same ↦ absurd (ground (arith, e, same))
  | inr other ↦
      let later = insert_new rest k g (ground (arith, e, other)) h in
      rw other (ap (λ (ps : List PacketDescriptor). f.packet_queue ++ ps) later)
]

insert_idle :
    (flows : Flows) (k : ℕ) (g : HfscFlowState)
    → g.packet_queue ≡ []
    → ((j : ℕ) (f : HfscFlowState) → lookup j flows ≡ some f → f.packet_queue ≡ [])
    → (j : ℕ) (f : HfscFlowState) → lookup j (insert k g flows) ≡ some f
    → f.packet_queue ≡ []
insert_idle flows k g e idle j f found =
    grind (arith, e, idle j f, lookup-insert k j g flows, found)

pub insert-IsFresh :
    (flows : Flows) (k : ℕ) (g : HfscFlowState)
    → g.flow_id ≡ k
    → g.packet_queue ≡ []
    → IsFresh flows
    → IsFresh (insert k g flows)
insert-IsFresh flows k g name empty v = record {
  named = insert-named flows k g name v.named;
  idle = insert_idle flows k g empty v.idle;
  distinct = insert-Unique k g flows v.distinct;
  none_held = elim (Option-cases (lookup k flows)) [
    | inl e ↦ insert_new flows k g e empty ∙ v.none_held
    | inr (f, e) ↦ insert_same flows k f g e (empty ∙ sym (v.idle k f e)) ∙ v.none_held
  ];
}

pub fresh-IsListed : (flows : Flows) → IsFresh flows → IsListed flows []
fresh-IsListed flows v = record {
  unique = v.distinct;
  listed =
      λ k f p ps found held. let empty = v.idle k f found in absurd (ground (arith, held, empty));
}

pub no_flows-IsFresh : IsFresh []
unfolding lookup
no_flows-IsFresh = record {
  named = λ k f e. absurd (ground (arith, e));
  idle = λ k f e. absurd (ground (arith, e));
  none_held = refl;
  distinct = tt;
}
