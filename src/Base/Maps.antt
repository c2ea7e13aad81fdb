-- ===== src/Base/Maps.antt =====
-- `std::map` and `std::unordered_map` with integer keys, as association lists.
use hqts.Base.Tests.{◌==◌, if◌then◌else◌, Bool-cases}
use hqts.Base.Lists.{get_elem?, set}
use mathlib.Core.Logic.{inl, inr}
use Prim.Native.Nat.{zero, suc}
use Prim.Native.Nat.{ℕ}
use mathlib.Core.Path.{◌≡◌, refl}
use mathlib.Core.List.{List, [], ◌∷◌}
use mathlib.Core.Option.{Option, none, some}
use native.Mathlib.Omega.{arith}

module _ {ℓ} {V : Type ℓ} where
  unfoldable pub lookup : ℕ → List (ℕ × V) → Option V
  lookup key [] = none
  lookup key ((held, value) ∷ rest) = if held == key then some value else lookup key rest

  -- m[key] = value
  unfoldable pub insert : ℕ → V → List (ℕ × V) → List (ℕ × V)
  insert key value [] = (key, value) ∷ []
  insert key value ((held, old) ∷ rest) =
      if held == key then (held, value) ∷ rest else (held, old) ∷ insert key value rest

  pub lookup-insert :
      (key other : ℕ) (value : V) (entries : List (ℕ × V))
      → lookup other (insert key value entries)
        ≡ (if key == other then some value else lookup other entries)
  unfolding lookup insert
  lookup-insert key other value [] = refl
  lookup-insert key other value ((held, old) ∷ rest) =
      ground (arith, lookup-insert key other value rest)

  -- A write to a key that is there, as a write to its entry.
  pub insert-set :
      (key : ℕ) (old value : V) (entries : List (ℕ × V))
      → lookup key entries ≡ some old
      → (i : ℕ) × (held : ℕ) × (get_elem? entries i ≡ some (held, old))
        × (insert key value entries ≡ set entries i (held, value))
  unfolding lookup insert
  insert-set key old value [] found = absurd (ground (arith, found))
  insert-set key old value ((held, v) ∷ rest) found = elim (Bool-cases (held == key)) [
    | inl e ↦ (zero, held, ground (arith, found, e), ground (arith, e))
    | inr e ↦
        let (i, k, at_i, same) = insert-set key old value rest (ground (arith, found, e)) in
        (suc i, k, at_i, ground (arith, e, same))
  ]

  -- The last write to a key counts.
  pub insert-insert :
      (key : ℕ) (old value : V) (entries : List (ℕ × V))
      → insert key value (insert key old entries) ≡ insert key value entries
  unfolding insert
  insert-insert key old value [] = ground arith
  insert-insert key old value ((held, v) ∷ rest) = elim (Bool-cases (held == key)) [
    | inl e ↦ ground (arith, e)
    | inr e ↦ let ih = insert-insert key old value rest in ground (arith, e, ih)
  ]
