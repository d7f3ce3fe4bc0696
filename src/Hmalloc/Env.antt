-- ===== src/Hmalloc/Env.antt =====
-- env.c: the settings that the library reads from the environment.
use hmsdk.Base.{
  ℕ, ◌≡◌, refl, Bool, false, Bool-cases, inl, inr, Option, none, some, List, [], ◌∷◌, Bytes, codes,
  same_text, same_text_refl, same_text_iff, subst, ap, if◌then◌else◌,
}
use hmsdk.Base.Int.{ℤ, pos}
use hmsdk.Base.Long.{atol, atoi, as_u64}

-- The environment, as names with values.
abbrev pub Environ : Type 0
Environ = List (Bytes × Bytes)

unfoldable pub getenv : Bytes → Environ → Option Bytes
getenv name [] = none
getenv name ((n, v) ∷ env) = let rest = getenv name env in if same_text name n then some v else rest

-- `setenv(name, value, 1)`
unfoldable pub setenv : Bytes → Bytes → Environ → Environ
setenv name value [] = (name, value) ∷ []
setenv name value ((n, v) ∷ env) =
    let rest = setenv name value env in
    if same_text name n then (name, value) ∷ env else (n, v) ∷ rest

unfoldable pub getenv_jemalloc : Environ → Bool
getenv_jemalloc env = elim (getenv (codes "HMALLOC_JEMALLOC") env) [
  | none ↦ false
  | some v ↦ same_text v (codes "1")
]

unfoldable pub getenv_nodemask : Environ → ℕ
getenv_nodemask env = elim (getenv (codes "HMALLOC_NODEMASK") env) [
  | none ↦ 0
  | some v ↦ as_u64 (atol v)
]

-- `mpol_default` is `MPOL_DEFAULT` of <numaif.h>.
unfoldable pub getenv_mpol_mode : ℕ → Environ → ℤ
getenv_mpol_mode mpol_default env = elim (getenv (codes "HMALLOC_MPOL_MODE") env) [
  | none ↦ pos mpol_default
  | some v ↦ atoi v
]

-- The global variables that are set by the environment.
pub record Settings : Type 0 where
  pub use_jemalloc : Bool
  pub nodemask : ℕ
  pub mpol_mode : ℤ

abbrev pub update_env : ℕ → Environ → Settings
update_env mpol_default env = record {
  use_jemalloc = getenv_jemalloc env;
  nodemask = getenv_nodemask env;
  mpol_mode = getenv_mpol_mode mpol_default env;
}

pub getenv-setenv_same :
    (name value : Bytes) (env : Environ) → getenv name (setenv name value env) ≡ some value
unfolding getenv setenv
getenv-setenv_same name value [] = rw (same_text_refl name) refl
getenv-setenv_same name value ((n, v) ∷ env) = elim (Bool-cases (same_text name n)) [
  | inl same ↦ rw (same, same_text_refl name) refl
  | inr other ↦ rw (other, other) (getenv-setenv_same name value env)
]

pub getenv-setenv_other :
    (name other value : Bytes) (env : Environ)
    → same_text name other ≡ false
    → getenv name (setenv other value env) ≡ getenv name env
unfolding getenv setenv
getenv-setenv_other name other value [] h = rw h refl
getenv-setenv_other name other value ((n, v) ∷ env) h = elim (Bool-cases (same_text other n)) [
  | inl same ↦
      let unlike = subst (λ x. same_text name x ≡ false) ((same_text_iff other n).0 same) h in
      rw (same, h, unlike) refl
  | inr differs ↦ rw differs (
      ap (λ r. if same_text name n then some v else r) (getenv-setenv_other name other value env h))
]
