-- ===== src/Aqm/Numerics.antt =====
-- The `double` arithmetic and the random numbers that `RedAqmQueue` uses. The values are abstract;
-- where a theorem needs a law of them it takes it from `IsIeee` or `IsUniform`.
use hqts.Base.{ℕ, suc, ◌+◌, ◌-◌, ◌*◌, ◌/◌, ◌≡◌, refl, Bool, true, false, ltb, leb, arith}

pub record Double (W : Type 0) : Type 0 where
  -- static_cast<double> of an unsigned integer, or of a count that is not negative.
  pub of_uint : ℕ → W
  pub nought : W
  pub one : W
  -- 1e-9
  pub epsilon : W
  pub add : W → W → W
  pub sub : W → W → W
  pub mul : W → W → W
  pub div : W → W → W
  pub lt : W → W → Bool
  pub le : W → W → Bool

-- `std::mt19937` and `std::uniform_real_distribution<double>(0.0, 1.0)`.
pub record Uniform (W G : Type 0) : Type 0 where
  pub seed : ℕ → G
  pub draw : G → W × G

-- Of IEEE comparison: no value is below itself, 0 is below 1, and 1 is not below 0.
pub record IsIeee (W : Type 0) ⦃d : Double W⦄ : Type 0 where
  pub lt_irrefl : (x : W) → d.lt x x ≡ false
  pub nought-lt-one : d.lt d.nought d.one ≡ true
  pub one-lt-nought : d.lt d.one d.nought ≡ false

-- The distribution draws from [0, 1).
pub record IsUniform (W G : Type 0) ⦃d : Double W⦄ ⦃u : Uniform W G⦄ : Type 0 where
  pub draw-lt-one : (g : G) → d.lt (u.draw g).0 d.one ≡ true

-- The laws can be met: billionths, and a generator that counts.
abbrev pub billion : ℕ
billion = 1_000_000_000

instance abbrev pub fixed_point : Double ℕ
fixed_point = record {
  of_uint = λ n. n * billion;
  nought = 0;
  one = billion;
  epsilon = 1;
  add = λ a b. a + b;
  sub = λ a b. a - b;
  mul = λ a b. a * b / billion;
  div = λ a b. a * billion / b;
  lt = ltb;
  le = leb;
}

instance abbrev pub counting : Uniform ℕ ℕ
counting = record { seed = λ n. n; draw = λ g. (0, suc g) }

pub fixed_point-IsIeee : IsIeee ℕ
fixed_point-IsIeee = record {
  lt_irrefl = λ x. ground arith;
  nought-lt-one = refl;
  one-lt-nought = refl;
}

pub counting-IsUniform : IsUniform ℕ ℕ
counting-IsUniform = record { draw-lt-one = λ g. refl }
