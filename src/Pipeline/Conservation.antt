-- ===== src/Pipeline/Conservation.antt =====
-- Any sequence of calls of the pipeline, and the packets that pass through its scheduler.
use mathlib.Core.List.{Perm, perm_middle, append-nil}
use mathlib.Core.List.Perm
use hqts.Base.{
  ℕ, ◌≡◌, refl, sym, ap, subst, ◌∙◌, inl, inr, Bool, true, false, Option, none, some, List, [], ◌∷◌,
  ◌++◌, null, Bool-cases, Result, Error, ok, err,
}
use hqts.Packet.{PacketDescriptor}
use hqts.Policy.Tree.{PolicyTree}
use hqts.Flow.Identifier.{FiveTuple}
use hqts.Shaper.{Readings, process_packet}
use hqts.Scheduler.Interface.{Scheduler, IsScheduler, AddsIf, TakesOrFails}
use hqts.Pipeline.{
  PacketPipeline, incoming, deliver, handle_incoming_packet, get_next_packet_to_transmit,
}
use hqts.Pipeline.Delivery.{next_empty, next_held}

pub data Call : Type 0 where
  arrival : FiveTuple → ℕ → List ℕ → Readings → Call
  departure : Call

-- The packet at the head of a list, if there is one.
abbrev pub note : Option PacketDescriptor → List PacketDescriptor → List PacketDescriptor
note none ps = ps
note (some p) ps = p ∷ ps

abbrev pub accepted_if : Bool → PacketDescriptor → Result Bool → Option PacketDescriptor
accepted_if true p (ok true) = some p
accepted_if _ p _ = none

abbrev pub sent_if : Bool → Result PacketDescriptor → Option PacketDescriptor
sent_if false (ok p) = some p
sent_if _ _ = none

taken :
    (before after : List PacketDescriptor) (r : Result PacketDescriptor)
    → TakesOrFails before r after
    → Perm before (note (sent_if false r) after)
taken before after (ok p) h = h
taken before after (err e) h = rw h (Perm.refl _)

stored_moves :
    (stored : Bool) (p : PacketDescriptor) (before after : List PacketDescriptor)
    → AddsIf stored before p after
    → Perm (note (accepted_if stored p (ok true)) before) after
stored_moves true p before after added = Perm.symm added
stored_moves false p before after same = rw same (Perm.refl _)

unanswered : (stored : Bool) (p : PacketDescriptor) → accepted_if stored p (ok false) ≡ none
unanswered true p = refl
unanswered false p = refl

thrown : (stored : Bool) (p : PacketDescriptor) (e : Error) → accepted_if stored p (err e) ≡ none
thrown true p e = refl
thrown false p e = refl

note_append :
    (o : Option PacketDescriptor) (xs ys : List PacketDescriptor)
    → note o (xs ++ ys) ≡ note o xs ++ ys
note_append none xs ys = refl
note_append (some p) xs ys = refl

note_cong :
    (o : Option PacketDescriptor) {xs ys : List PacketDescriptor}
    → Perm xs ys
    → Perm (note o xs) (note o ys)
note_cong none h = h
note_cong (some p) h = Perm.cons p h

note_out :
    (o : Option PacketDescriptor) (xs ys : List PacketDescriptor)
    → Perm (xs ++ note o ys) (note o xs ++ ys)
note_out none xs ys = Perm.refl _
note_out (some p) xs ys = perm_middle xs ys

-- The bookkeeping of one call, in front of that of the calls after it.
chain :
    (come sent : Option PacketDescriptor) (h h' cs ss e : List PacketDescriptor)
    → Perm (note come h) (note sent h')
    → Perm (h' ++ cs) (ss ++ e)
    → Perm (h ++ note come cs) (note sent ss ++ e)
chain come sent h h' cs ss e one rest =
    let joined : Perm (note sent (h' ++ cs)) (note sent ss ++ e) =
      rw (← note_append sent ss e) (note_cong sent rest) in
    Perm.trans (note_out come h cs)
      (Perm.trans (Perm.append_right cs one) (rw (← note_append sent h' cs) joined))

module _ {T S : Type 0} ⦃tree : PolicyTree T⦄ ⦃scheduling : Scheduler S⦄ where
  abbrev pub step : PacketPipeline T S → Call → PacketPipeline T S
  step s (arrival k n payload at) = (handle_incoming_packet s k n payload at).0
  step s departure = (get_next_packet_to_transmit s).0

  module _ (laws : IsScheduler S) where
    abbrev pub held : PacketPipeline T S → List PacketDescriptor
    held s = laws.packets s.scheduler

    -- The packet that a call brings into the scheduler: the shaper lets it pass, and the scheduler
    -- stores it.
    abbrev pub accepts : PacketPipeline T S → Call → Option PacketDescriptor
    accepts s (arrival k n payload at) =
        let (_, p, r) = process_packet s.shaper (incoming n payload) k at in
        accepted_if (laws.stores s.scheduler p) p r
    accepts s departure = none

    -- The packet that a call sends: what it returns, unless no packet was held.
    abbrev pub sends : PacketPipeline T S → Call → Option PacketDescriptor
    sends s (arrival _ _ _ _) = none
    sends s departure = sent_if (null (held s)) (get_next_packet_to_transmit s).1

    pub run : PacketPipeline T S → List Call → PacketPipeline T S
    run s [] = s
    run s (c ∷ cs) = run (step s c) cs

    pub all_accepted : PacketPipeline T S → List Call → List PacketDescriptor
    all_accepted s [] = []
    all_accepted s (c ∷ cs) = note (accepts s c) (all_accepted (step s c) cs)

    pub all_sent : PacketPipeline T S → List Call → List PacketDescriptor
    all_sent s [] = []
    all_sent s (c ∷ cs) = note (sends s c) (all_sent (step s c) cs)

    -- What one call does to the packets held.
    abbrev pub Moves : PacketPipeline T S → Call → Type 0
    Moves s c = Perm (note (accepts s c) (held s)) (note (sends s c) (held (step s c)))

    deliver_moves :
        (s : PacketPipeline T S) (p : PacketDescriptor) (r : Result Bool)
        → laws.Inv s.scheduler
        → let s' = (deliver s p r).0 in
          Perm (note (accepted_if (laws.stores s.scheduler p) p r) (held s)) (held s')
          × laws.Inv s'.scheduler
    unfolding deliver
    deliver_moves s p (ok false) v =
        (rw (unanswered (laws.stores s.scheduler p) p) (Perm.refl _), v)
    deliver_moves s p (err e) v = (rw (thrown (laws.stores s.scheduler p) p e) (Perm.refl _), v)
    deliver_moves s p (ok true) v = (
      stored_moves (laws.stores s.scheduler p) p (held s) _ (laws.packets-enqueue s.scheduler p v),
      laws.enqueue-Inv s.scheduler p v,
    )

    -- What the pair that a departure leaves has to satisfy.
    Departs : PacketPipeline T S → PacketPipeline T S × Result PacketDescriptor → Type 0
    Departs s (s', r) =
        Perm (held s) (note (sent_if (null (held s)) r) (held s')) × laws.Inv s'.scheduler

    departure_moves :
        (s : PacketPipeline T S) → laws.Inv s.scheduler → Departs s (get_next_packet_to_transmit s)
    unfolding Departs
    departure_moves s v =
        let e = laws.is_empty_lem s.scheduler v in
        elim (Bool-cases (null (held s))) [
          | inl f ↦ subst (Departs s) (sym (next_empty s (e ∙ ap ok f))) (rw f (Perm.refl _, v))
          | inr f ↦ subst (Departs s) (sym (next_held s (e ∙ ap ok f))) (
            rw f (taken _ _ _ (laws.packets-dequeue s.scheduler v)),
            laws.dequeue-Inv s.scheduler v,
          )
        ]

    call-Moves :
        (s : PacketPipeline T S) (c : Call)
        → laws.Inv s.scheduler
        → Moves s c × laws.Inv (step s c).scheduler
    unfolding handle_incoming_packet Departs
    call-Moves s (arrival k n payload at) v =
        let (shaper, p, r) = process_packet s.shaper (incoming n payload) k at in
        deliver_moves (record s { shaper = shaper }) p r v
    call-Moves s departure v = departure_moves s v

    -- Over any sequence of calls, on a scheduler that meets the contract and whose invariant holds
    -- at first: the packets held at first and those that the shaper lets pass and the scheduler
    -- stores are, each as often, the packets sent and the packets held at the end. None is lost,
    -- and none is sent twice.
    pub run_conserves :
        (s : PacketPipeline T S) (calls : List Call)
        → laws.Inv s.scheduler
        → Perm (held s ++ all_accepted s calls) (all_sent s calls ++ held (run s calls))
    unfolding run all_accepted all_sent
    run_conserves s [] v = rw append-nil (Perm.refl _)
    run_conserves s (c ∷ cs) v =
        let (one, w) = call-Moves s c v in
        chain (accepts s c) (sends s c) (held s) (held (step s c)) _ _ _ one
          (run_conserves (step s c) cs w)
