-- ===== src/Policy/Listed.antt =====
-- A list of policies as a policy tree.
use hqts.Base.{
  ℕ, ◌==◌, ◌≡◌, ◌≢◌, refl, Bool, true, false, List, [], ◌∷◌, Option, none, some, if◌then◌else◌,
  arith,
}
use hqts.Policy.{ShapingPolicy}
use hqts.Policy.Tree.{PolicyTree, IsIndexed}

abbrev pub find_listed : ℕ → List ShapingPolicy → Option ShapingPolicy
find_listed k [] = none
find_listed k (x ∷ xs) = if x.id == k then some x else find_listed k xs

abbrev pub modify_listed :
    ℕ → (ShapingPolicy → ShapingPolicy) → List ShapingPolicy → List ShapingPolicy × Bool
modify_listed k f [] = ([], false)
modify_listed k f (x ∷ xs) =
    let (ys, done) = modify_listed k f xs in if x.id == k then (f x ∷ xs, true) else (x ∷ ys, done)

instance abbrev pub listed : PolicyTree (List ShapingPolicy)
listed = record { find = find_listed; modify = modify_listed }

found : (k : ℕ) (t : List ShapingPolicy) (x : ShapingPolicy) → find_listed k t ≡ some x → x.id ≡ k
found k [] x e = absurd (ground (arith, e))
found k (y ∷ ys) x e = grind (arith, e, found k ys x)

succeeds :
    (k : ℕ) (f : ShapingPolicy → ShapingPolicy) (t : List ShapingPolicy) (x : ShapingPolicy)
    → find_listed k t ≡ some x
    → (modify_listed k f t).1 ≡ true
succeeds k f [] x e = absurd (ground (arith, e))
succeeds k f (y ∷ ys) x e = ground (arith, e, succeeds k f ys x)

find_own :
    (k : ℕ) (f : ShapingPolicy → ShapingPolicy) (t : List ShapingPolicy) (x : ShapingPolicy)
    → find_listed k t ≡ some x
    → (f x).id ≡ x.id
    → find_listed k (modify_listed k f t).0 ≡ some (f x)
find_own k f [] x e keeps = absurd (ground (arith, e))
find_own k f (y ∷ ys) x e keeps = grind (arith, e, keeps, find_own k f ys x)

find_other :
    (k j : ℕ) (f : ShapingPolicy → ShapingPolicy) (t : List ShapingPolicy) (x : ShapingPolicy)
    → find_listed k t ≡ some x
    → (f x).id ≡ x.id
    → j ≢ k
    → find_listed j (modify_listed k f t).0 ≡ find_listed j t
find_other k j f [] x e keeps differs = refl
find_other k j f (y ∷ ys) x e keeps differs = grind (arith, e, keeps, find_other k j f ys x)

pub listed-IsIndexed : IsIndexed (List ShapingPolicy)
listed-IsIndexed = record {
  found_id = found;
  modify_succeeds = λ k f t x e _. succeeds k f t x e;
  find-modify = find_own;
  find-modify_other = find_other;
}
