-- ===== src/Bwprof/Result.antt =====
-- How a function of bwprof.cc ends: it returns, it throws, or it reads or writes past the end of a
-- vector, which C++ leaves undefined.
use hmsdk.Base.{ℕ, Option, none, some, List, Bytes, get_elem?}

pub data Result {ℓ} (A : Type ℓ) : Type ℓ where
  ok : A → Result A
  throw : Bytes → Result A
  undefined : Result A

infixl 5 ◌>>=◌ ◌>>◌
abbrev pub ◌>>=◌ {ℓ κ} : {A : Type ℓ} {B : Type κ} → Result A → (A → Result B) → Result B
ok a >>= f = f a
throw e >>= f = throw e
undefined >>= f = undefined

abbrev pub ◌>>◌ {ℓ κ} : {A : Type ℓ} {B : Type κ} → Result A → Result B → Result B
m >> k = m >>= λ _. k

abbrev in_range {ℓ} : {A : Type ℓ} → Option A → Result A
in_range none = undefined
in_range (some a) = ok a

-- `v[i]`
abbrev pub at {ℓ} : {A : Type ℓ} → List A → ℕ → Result A
at v i = in_range (get_elem? v i)

-- What holds of the result, if there is one.
abbrev pub Returns : {A : Type 0} → (A → Type 0) → Result A → Type 0
Returns P (ok a) = P a
Returns P (throw _) = Unit
Returns P undefined = Unit

pub Returns-bind :
    {A B : Type 0} (P : A → Type 0) (Q : B → Type 0) (r : Result A) (k : A → Result B)
    → Returns P r
    → ((a : A) → P a → Returns Q (k a))
    → Returns Q (r >>= k)
Returns-bind P Q (ok a) k h later = later a h
Returns-bind P Q (throw _) k h later = tt
Returns-bind P Q undefined k h later = tt

pub Returns-any : {A : Type 0} (r : Result A) → Returns (λ _. Unit {0}) r
Returns-any (ok a) = tt
Returns-any (throw _) = tt
Returns-any undefined = tt
