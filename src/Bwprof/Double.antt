-- ===== src/Bwprof/Double.antt =====
-- What bwprof.cc does with a `double`. The numbers themselves, their printing with `std::fixed` and
-- `std::stod` are parameters; `IsPrinted` is what the C++ library documents of the last two.
use hmsdk.Base.{ℕ, ◌≡◌, ◌≢◌, Bool, Option, some, [], Bytes, Lacks}

pub record Double (D : Type 0) : Type 0 where
  -- `static_cast<double>` of an unsigned number, and the constants, which are whole
  pub of_nat : ℕ → D
  pub add : D → D → D
  pub mul : D → D → D
  pub div : D → D → D
  pub eq : D → D → Bool
  -- `<< std::fixed << std::setprecision(n)`
  pub fixed : ℕ → D → Bytes
  -- `none` is an exception
  pub stod : Bytes → Option D

-- A printed number is not empty, holds neither a comma nor a newline, and is read back as the
-- number rounded to the printed digits.
pub record IsPrinted (D : Type 0) ⦃d : Double D⦄ : Type 0 where
  pub rounded : ℕ → D → D
  pub fixed-ne-nil : (n : ℕ) (x : D) → d.fixed n x ≢ []
  pub fixed_no_comma : (n : ℕ) (x : D) → Lacks b',' (d.fixed n x)
  pub fixed_no_newline : (n : ℕ) (x : D) → Lacks b'\n' (d.fixed n x)
  pub stod-fixed : (n : ℕ) (x : D) → d.stod (d.fixed n x) ≡ some (rounded n x)

-- The subtraction and the sign, for the clock of a dump.
pub record Signed (D : Type 0) : Type 0 where
  pub sub : D → D → D
  -- `x < 0`
  pub is_negative : D → Bool
  -- `-1.0`
  pub minus_one : D
