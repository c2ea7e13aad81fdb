-- ===== src/Policy/Tree.antt =====
-- hqts/include/hqts/policy/policy_tree.h: what the program uses of its Boost.MultiIndex container,
-- `find` on the unique index by id and `modify` at a position found there.
use hqts.Base.{ℕ, ◌≡◌, ◌≢◌, Bool, true, Option, some}
use hqts.Policy.{ShapingPolicy}

pub record PolicyTree (T : Type 0) : Type 0 where
  pub find : ℕ → T → Option ShapingPolicy
  -- `modify(it, f)` at the element of that id, and whether it succeeded.
  pub modify : ℕ → (ShapingPolicy → ShapingPolicy) → T → T × Bool

-- As the library documents them: an element is found under its id, and a change that keeps the
-- key succeeds and changes that element alone.
pub record IsIndexed (T : Type 0) ⦃p : PolicyTree T⦄ : Type 0 where
  pub found_id : (k : ℕ) (t : T) (x : ShapingPolicy) → p.find k t ≡ some x → x.id ≡ k
  pub modify_succeeds :
      (k : ℕ) (f : ShapingPolicy → ShapingPolicy) (t : T) (x : ShapingPolicy)
      → p.find k t ≡ some x
      → (f x).id ≡ x.id
      → (p.modify k f t).1 ≡ true
  pub find-modify :
      (k : ℕ) (f : ShapingPolicy → ShapingPolicy) (t : T) (x : ShapingPolicy)
      → p.find k t ≡ some x
      → (f x).id ≡ x.id
      → p.find k (p.modify k f t).0 ≡ some (f x)
  pub find-modify_other :
      (k j : ℕ) (f : ShapingPolicy → ShapingPolicy) (t : T) (x : ShapingPolicy)
      → p.find k t ≡ some x
      → (f x).id ≡ x.id
      → j ≢ k
      → p.find j (p.modify k f t).0 ≡ p.find j t
