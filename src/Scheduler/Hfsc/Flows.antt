-- ===== src/Scheduler/Hfsc/Flows.antt =====
-- What holds of every flow of the HFSC scheduler.
use hqts.Base.{
  ℕ, ◌==◌, ◌≡◌, subst, inl, inr, some, lookup, insert, lookup-insert, Bool-cases, arith,
}
use hqts.Scheduler.Hfsc.Timing.{HfscFlowState}
use hqts.Scheduler.Hfsc.Eligible.{Flows}

abbrev pub AllFlows : (HfscFlowState → Type 0) → Flows → Type 0
AllFlows P flows = (k : ℕ) (f : HfscFlowState) → lookup k flows ≡ some f → P f

pub insert-AllFlows :
    (P : HfscFlowState → Type 0) (flows : Flows) (k : ℕ) (g : HfscFlowState)
    → AllFlows P flows
    → P g
    → AllFlows P (insert k g flows)
insert-AllFlows P flows k g v h j f found = elim (Bool-cases (k == j)) [
  | inl e ↦ let same : g ≡ f = ground (arith, found, e, lookup-insert k j g flows) in subst P same h
  | inr e ↦ v j f (ground (arith, found, e, lookup-insert k j g flows))
]
