-- ===== src/Scheduler/Lanes/Order.antt =====
-- The packets of one priority, over calls in a row of a scheduler that keeps a queue for each.
use mathlib.Core.List.{Sublist, append_assoc, append-nil, nil-sublist}
use mathlib.Core.List.Sublist
use mathlib.Core.Option.{some-injective}
use native.Mathlib.Decide.{ℕ_discrete}
use hqts.Base.{
  ℕ, ◌≡◌, ◌≢◌, refl, sym, ◌∙◌, inl, inr, List, [], ◌∷◌, ◌++◌, Option, none, some, All, All-append,
  All-mono, subst, Result, ok, err, arith,
}
use hqts.Packet.{PacketDescriptor}
use hqts.Scheduler.Interface.{Scheduler}
use hqts.Scheduler.Lanes.{of_class, Leaves, Enters, HasLanes, note, arrivals, run}

of_class-append :
    (c : ℕ) (xs ys : List PacketDescriptor) → of_class c (xs ++ ys) ≡ of_class c xs ++ of_class c ys
of_class-append c [] ys = refl
of_class-append c (p ∷ xs) ys = elim (ℕ_discrete p.priority c) [
  | yes e ↦ let ih = of_class-append c xs ys in ground arith
  | no ne ↦ let ih = of_class-append c xs ys in ground arith
]

mismatch : (c : ℕ) (p : PacketDescriptor) → p.priority ≢ c → of_class c (p ∷ []) ≡ []
mismatch c p ne = ground arith

-- Each packet waits in the queue that `home` gives its priority.
abbrev pub AtHome : (ℕ → Option ℕ) → (ℕ → List PacketDescriptor) → Type 0
AtHome home rows = (k : ℕ) → All (λ p. home p.priority ≡ some k) (rows k)

rehome :
    (home home' : ℕ → Option ℕ) (rows : ℕ → List PacketDescriptor)
    → ((c : ℕ) → home' c ≡ home c)
    → AtHome home rows
    → AtHome home' rows
rehome home home' rows same h k = All-mono _ _ (rows k) (λ p e. same p.priority ∙ e) (h k)

Enters-AtHome :
    (home : ℕ → Option ℕ) (before after : ℕ → List PacketDescriptor) (p : PacketDescriptor)
    → Enters before p (home p.priority) after
    → AtHome home before
    → AtHome home after
Enters-AtHome home before after p (inl same) h k = rw (same k) (h k)
Enters-AtHome home before after p (inr (i, e, more, others)) h k = elim (ℕ_discrete i k) [
  | yes one ↦ rw (← one, more) (All-append _ (before i) (p ∷ []) (h i) (e, tt))
  | no ne ↦ rw (others k ne) (h k)
]

Leaves-AtHome :
    (home : ℕ → Option ℕ) (before after : ℕ → List PacketDescriptor) (r : Result PacketDescriptor)
    → Leaves before r after
    → AtHome home before
    → AtHome home after
Leaves-AtHome home before after (err e) same h k = rw (same k) (h k)
Leaves-AtHome home before after (ok p) (i, first, others) h k = elim (ℕ_discrete i k) [
  | yes one ↦ rw (← one) ((rw first at (h i)).1)
  | no ne ↦ rw (others k ne) (h k)
]

-- A list before any other.
before_any : (xs ys : List PacketDescriptor) → Sublist xs (xs ++ ys)
before_any xs ys =
    subst (λ (t : List PacketDescriptor). Sublist t (xs ++ ys)) (append-nil xs)
      (Sublist.append (Sublist.refl xs) (nil-sublist ys))

Enters-of_class :
    (before after : ℕ → List PacketDescriptor) (p : PacketDescriptor) (home : Option ℕ) (c k : ℕ)
    → Enters before p home after
    → Sublist (of_class c (after k)) (of_class c (before k) ++ of_class c (p ∷ []))
Enters-of_class before after p home c k (inl same) =
    rw (same k) (before_any (of_class c (before k)) (of_class c (p ∷ [])))
Enters-of_class before after p home c k (inr (i, e, more, others)) = elim (ℕ_discrete i k) [
  | yes one ↦ rw (← one, more, of_class-append c (before i) (p ∷ [])) (Sublist.refl _)
  | no ne ↦ rw (others k ne) (before_any (of_class c (before k)) (of_class c (p ∷ [])))
]

Leaves-of_class :
    (home : ℕ → Option ℕ) (before after : ℕ → List PacketDescriptor) (r : Result PacketDescriptor)
    (c k : ℕ)
    → Leaves before r after
    → AtHome home before
    → home c ≡ some k
    → of_class c (before k) ≡ of_class c (note r []) ++ of_class c (after k)
Leaves-of_class home before after (err e) c k same h at_k = rw (same k) refl
Leaves-of_class home before after (ok p) c k (i, first, others) h at_k = elim (ℕ_discrete i k) [
  | yes one ↦ rw (← one, first) (of_class-append c (p ∷ []) (after i))
  | no ne ↦
      let home_p = (rw first at (h i)).0 in
      let other : p.priority ≢ c = λ e. ne (some-injective _ _ (sym home_p ∙ (rw e at_k))) in
      rw (mismatch c p other, others k ne) refl
]

module _ {S : Type 0} ⦃s : Scheduler S⦄ (v : HasLanes S) where
  -- Each packet waits in the queue for its priority.
  abbrev pub IsSorted : S → Type 0
  IsSorted x = AtHome (v.lane_of x) (v.lane x)

  -- The packets of priority `c` that wait in queue `k`.
  abbrev pub waiting : S → ℕ → ℕ → List PacketDescriptor
  waiting x c k = of_class c (v.lane x k)

  enqueue-IsSorted :
      (x : S) (p : PacketDescriptor) → v.Inv x → IsSorted x → IsSorted (s.enqueue x p).0
  enqueue-IsSorted x p h sorted =
      let y = (s.enqueue x p).0 in
      rehome (v.lane_of x) (v.lane_of y) (v.lane y) (λ c. v.lane_of-enqueue x p c h)
        (Enters-AtHome (v.lane_of x) (v.lane x) (v.lane y) p (v.lane-enqueue x p h) sorted)

  dequeue-IsSorted : (x : S) → v.Inv x → IsSorted x → IsSorted (s.dequeue x).0
  dequeue-IsSorted x h sorted =
      let (y, r) = s.dequeue x in
      rehome (v.lane_of x) (v.lane_of y) (v.lane y) (λ c. v.lane_of-dequeue x c h)
        (Leaves-AtHome (v.lane_of x) (v.lane x) (v.lane y) r (v.lane-dequeue x h) sorted)

  -- After `enqueue`, what waits is what waited and the packet, or without it.
  waiting-enqueue :
      (x : S) (p : PacketDescriptor) (c k : ℕ)
      → v.Inv x
      → Sublist (waiting (s.enqueue x p).0 c k) (waiting x c k ++ of_class c (p ∷ []))
  waiting-enqueue x p c k h =
      Enters-of_class (v.lane x) (v.lane (s.enqueue x p).0) p (v.lane_of x p.priority) c k
        (v.lane-enqueue x p h)

  -- What waits for `c` is what `dequeue` returns for `c`, and what waits after it.
  waiting-dequeue :
      (x : S) (c k : ℕ)
      → v.Inv x
      → IsSorted x
      → v.lane_of x c ≡ some k
      → waiting x c k ≡ of_class c (note (s.dequeue x).1 []) ++ waiting (s.dequeue x).0 c k
  waiting-dequeue x c k h sorted e =
      Leaves-of_class (v.lane_of x) (v.lane x) (v.lane (s.dequeue x).0) (s.dequeue x).1 c k
        (v.lane-dequeue x h) sorted e

  of_class-note :
      (c : ℕ) (r : Result PacketDescriptor) (ps : List PacketDescriptor)
      → of_class c (note r ps) ≡ of_class c (note r []) ++ of_class c ps
  of_class-note c (ok p) ps = of_class-append c (p ∷ []) ps
  of_class-note c (err e) ps = refl

  -- On a scheduler with a queue for each priority, each packet in the queue for its own: of the
  -- packets of one priority, those that any calls return, and then those that still wait, stand in
  -- the order of those that waited and of those that came, and none of them twice.
  pub run_in_order :
      (x : S) (c k : ℕ) (cs : List (Option PacketDescriptor))
      → v.Inv x
      → IsSorted x
      → v.lane_of x c ≡ some k
      → Sublist
          (of_class c (run cs x).1 ++ waiting (run cs x).0 c k)
          (waiting x c k ++ of_class c (arrivals cs))
  run_in_order x c k [] h sorted e = rw (append-nil (waiting x c k)) (Sublist.refl _)
  run_in_order x c k (some p ∷ cs) h sorted e =
      let y = (s.enqueue x p).0 in
      let ih =
        run_in_order y c k cs (v.enqueue-Inv x p h) (enqueue-IsSorted x p h sorted)
          (v.lane_of-enqueue x p c h ∙ e) in
      let step =
        Sublist.append (waiting-enqueue x p c k h) (Sublist.refl (of_class c (arrivals cs))) in
      Sublist.trans ih (rw (of_class-append c (p ∷ []) (arrivals cs), ← append_assoc) step)
  run_in_order x c k (none ∷ cs) h sorted e =
      let y = (s.dequeue x).0 in
      let ih =
        run_in_order y c k cs (v.dequeue-Inv x h) (dequeue-IsSorted x h sorted)
          (v.lane_of-dequeue x c h ∙ e) in
      rw
        (
          waiting-dequeue x c k h sorted e,
          of_class-note c (s.dequeue x).1 (run cs y).1,
          append_assoc,
          append_assoc,
        )
        (Sublist.append (Sublist.refl (of_class c (note (s.dequeue x).1 []))) ih)
