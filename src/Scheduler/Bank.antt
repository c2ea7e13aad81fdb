-- ===== src/Scheduler/Bank.antt =====
-- The packets of a row of queues, whatever a queue is: what a write of one queue does to them.
use mathlib.Core.Logic.{∥∥₁_elim}
use mathlib.Core.List.{Perm, Permᴰ, perm_middle, append_assoc}
use mathlib.Core.List.Perm
use native.Mathlib.Nat.{ℕ_set, mod-eq_of_lt}
use native.Mathlib.Decide.{dec_le}
use hqts.Base.{
  ℕ, zero, suc, ◌+◌, ◌-◌, ◌%◌, ◌<◌, ◌≡◌, refl, ap, sym, ◌∙◌, List, [], ◌∷◌, ◌++◌, map, some, arith,
  length, length-append, ◌≤◌, get_elem?, set,
}

length-Permᴰ {ℓ} : {B : Type ℓ} {xs ys : List B} → Permᴰ xs ys → length xs ≡ length ys
length-Permᴰ Permᴰ.nil = refl
length-Permᴰ (Permᴰ.cons e p) = ap suc (length-Permᴰ p)
length-Permᴰ (Permᴰ.swap e f) = refl
length-Permᴰ (Permᴰ.trans p q) = length-Permᴰ p ∙ length-Permᴰ q

pub length-Perm {ℓ} : {B : Type ℓ} {xs ys : List B} → Perm xs ys → length xs ≡ length ys
length-Perm p = ∥∥₁_elim p (ℕ_set _ _) length-Permᴰ

-- Going round `n` queues from queue `c`, each queue has its turn.
pub place_onto : (c k n : ℕ) → c < n → k < n → (j : ℕ) × (j < n) × ((c + j) % n ≡ k)
place_onto c k n hc hk = elim (dec_le c k) [
  | yes l ↦ let e : c + (k - c) ≡ k = omega arith in (k - c, omega arith, rw e (mod-eq_of_lt hk))
  | no l ↦
      let e : c + (k + n - c) ≡ k + n = omega arith in (k + n - c, omega arith, rw e (grind arith))
]

-- `c` gives the contents of a queue.
module _ {A B : Type 0} (c : A → List B) where
  abbrev pub all_packets : List A → List B
  all_packets [] = []
  all_packets (q ∷ qs) = c q ++ all_packets qs

  pub all_packets-set_same :
      (qs : List A) (i : ℕ) (v w : A)
      → get_elem? qs i ≡ some v
      → c w ≡ c v
      → all_packets (set qs i w) ≡ all_packets qs
  all_packets-set_same [] i v w g e = refl
  all_packets-set_same (q ∷ qs) zero v w g e = ground arith
  all_packets-set_same (q ∷ qs) (suc i) v w g e =
      ap (λ t. c q ++ t) (all_packets-set_same qs i v w g e)

  -- One more packet in a queue is one more in all.
  pub all_packets-set_push :
      (qs : List A) (i : ℕ) (v w : A) (p : B)
      → get_elem? qs i ≡ some v
      → c w ≡ c v ++ p ∷ []
      → Perm (all_packets (set qs i w)) (p ∷ all_packets qs)
  all_packets-set_push [] i v w p g e = cc
  all_packets-set_push (q ∷ qs) zero v w p g e =
      let same : q ≡ v = ground arith in
      rw (e, same, append_assoc) (perm_middle (c v) (all_packets qs))
  all_packets-set_push (q ∷ qs) (suc i) v w p g e =
      Perm.trans (Perm.append_left (c q) (all_packets-set_push qs i v w p g e))
        (perm_middle (c q) (all_packets qs))

  -- One packet less in a queue is one less in all.
  pub all_packets-set_pop :
      (qs : List A) (i : ℕ) (v w : A) (p : B)
      → get_elem? qs i ≡ some v
      → c v ≡ p ∷ c w
      → Perm (all_packets qs) (p ∷ all_packets (set qs i w))
  all_packets-set_pop [] i v w p g e = cc
  all_packets-set_pop (q ∷ qs) zero v w p g e =
      let same : q ≡ v = ground arith in rw (same, e) (Perm.refl _)
  all_packets-set_pop (q ∷ qs) (suc i) v w p g e =
      Perm.trans (Perm.append_left (c q) (all_packets-set_pop qs i v w p g e))
        (perm_middle (c q) (all_packets (set qs i w)))

  -- Queues that are empty one by one are empty in all.
  pub all_packets_empty :
      (qs : List A) → ((i : ℕ) (v : A) → get_elem? qs i ≡ some v → c v ≡ []) → all_packets qs ≡ []
  all_packets_empty [] h = refl
  all_packets_empty (q ∷ qs) h = rw (h 0 q refl) (all_packets_empty qs (λ i v e. h (suc i) v e))

  pub all_packets-append :
      (xs ys : List A) → all_packets (xs ++ ys) ≡ all_packets xs ++ all_packets ys
  all_packets-append [] ys = refl
  all_packets-append (x ∷ xs) ys = rw (all_packets-append xs ys) (sym (append_assoc (c x) _ _))

  -- A change of the queues that keeps their contents.
  pub all_packets-map :
      (f : A → A)
      → ((q : A) → c (f q) ≡ c q)
      → (qs : List A) → all_packets (map f qs) ≡ all_packets qs
  all_packets-map f h [] = refl
  all_packets-map f h (q ∷ qs) = rw (h q, all_packets-map f h qs)

  pub all_packets_bound :
      (qs : List A) (i : ℕ) (v : A)
      → get_elem? qs i ≡ some v
      → length (c v) ≤ length (all_packets qs)
  all_packets_bound [] i v e = cc
  all_packets_bound (q ∷ qs) zero v e =
      let same : q ≡ v = ground arith in
      rw same (omega (arith, length-append (c v) (all_packets qs)))
  all_packets_bound (q ∷ qs) (suc i) v e =
      omega (arith, length-append (c q) (all_packets qs), all_packets_bound qs i v e)
