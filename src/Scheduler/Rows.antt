-- ===== src/Scheduler/Rows.antt =====
-- The contents of a row of queues, by index, and what a write of one queue does to them.
use native.Mathlib.Decide.{ℕ_discrete}
use hqts.Base.{
  ℕ, zero, suc, map, refl, ◌∷◌, ◌≡◌, ◌≢◌, sym, ap, ◌∙◌, List, [], Option, none, some, get_elem?,
  set, get_elem?-set_self, get_elem?-set_ne, get_elem?_bound,
}

-- `c` gives the contents of a queue.
module _ {A B : Type 0} (c : A → List B) where
  abbrev pub row_of : Option A → List B
  row_of none = []
  row_of (some q) = c q

  abbrev pub row : List A → ℕ → List B
  row qs k = row_of (get_elem? qs k)

  pub row-set_self :
      (qs : List A) (i : ℕ) (v w : A) → get_elem? qs i ≡ some v → row (set qs i w) i ≡ c w
  row-set_self qs i v w g = ap row_of (get_elem?-set_self qs i w (get_elem?_bound qs i g))

  pub row-set_other : (qs : List A) (i k : ℕ) (w : A) → i ≢ k → row (set qs i w) k ≡ row qs k
  row-set_other qs i k w ne = ap row_of (get_elem?-set_ne qs w ne)

  pub row-set_same :
      (qs : List A) (i : ℕ) (v w : A)
      → get_elem? qs i ≡ some v
      → c w ≡ c v
      → (k : ℕ) → row (set qs i w) k ≡ row qs k
  row-set_same qs i v w g e k = elim (ℕ_discrete i k) [
    | yes same ↦
        let before : row qs i ≡ c v = ap row_of g in
        rw (← same) (row-set_self qs i v w g ∙ e ∙ sym before)
    | no ne ↦ row-set_other qs i k w ne
  ]

pub row-map :
    {A B : Type 0} (c : A → List B) (f : A → A)
    → ((q : A) → c (f q) ≡ c q)
    → (qs : List A) (k : ℕ) → row c (map f qs) k ≡ row c qs k
row-map c f h [] k = refl
row-map c f h (q ∷ qs) zero = h q
row-map c f h (q ∷ qs) (suc k) = row-map c f h qs k
