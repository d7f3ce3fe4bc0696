-- ===== src/Hmalloc/Power.antt =====
-- `is_pow2`, the bitwise test for a power of two.
use hmsdk.Base.{
  ℕ, zero, suc, ◌+◌, ◌-◌, ◌*◌, ◌/◌, ◌%◌, ◌^◌, ◌<◌, ◌≡◌, refl, sym, subst, ltb, ◌∙◌, ◌≢◌, ◌↔◌, ◌≤◌,
  Bool-cases, ◌⊎◌, inl, inr, Bool, false, not, ◌||◌, ◌==◌, if◌then◌else◌, arith,
}
use hmsdk.Base.Words.{sub_u64}

-- `&`, bit by bit, on the low bits that the first argument counts.
land : ℕ → ℕ → ℕ → ℕ
land zero a b = 0
land (suc bits) a b =
    let rest = land bits (a / 2) (b / 2) in (if a % 2 == 1 then b % 2 else 0) + 2 * rest

unfoldable pub is_pow2 : ℕ → Bool
unfolding land
is_pow2 val = land 64 val (sub_u64 val 1) == 0

-- The alignments that `haligned_alloc` and `hposix_memalign` refuse.
unfoldable pub is_refused : ℕ → Bool
is_refused alignment = alignment == 0 || not (is_pow2 alignment)

pow_suc : (k : ℕ) → 2 ^ suc k ≡ 2 * 2 ^ k
pow_suc k = omega arith

land_self : (bits n : ℕ) → n < 2 ^ bits → land bits n n ≡ n
unfolding land
land_self zero n h = omega arith
land_self (suc bits) n h = ground (arith, land_self bits (n / 2) (omega (arith, pow_suc bits)))

even_bit : (u : ℕ) → 2 * u % 2 ≡ 0
even_bit u = omega arith

odd_bit : (u : ℕ) → (2 * u + 1) % 2 ≡ 1
odd_bit u = omega arith

half_even : (u : ℕ) → 2 * u / 2 ≡ u
half_even u = omega arith

half_odd : (u : ℕ) → (2 * u + 1) / 2 ≡ u
half_odd u = omega arith

half_pred : (u : ℕ) → u ≢ 0 → (2 * u - 1) / 2 ≡ u - 1
half_pred u p = omega arith

land_even : (bits u : ℕ) → u ≢ 0 → land (suc bits) (2 * u) (2 * u - 1) ≡ 2 * land bits u (u - 1)
unfolding land
land_even bits u p = rw (even_bit u, half_even u, half_pred u p) (omega arith)

pred_odd : (u : ℕ) → 2 * u + 1 - 1 ≡ 2 * u
pred_odd u = omega arith

land_odd : (bits u : ℕ) → land (suc bits) (2 * u + 1) (2 * u + 1 - 1) ≡ 2 * land bits u u
unfolding land
land_odd bits u = rw (pred_odd u, odd_bit u, half_odd u, half_even u, even_bit u) (omega arith)

parity : (n : ℕ) → (n ≡ 2 * (n / 2)) ⊎ (n ≡ 2 * (n / 2) + 1)
parity n = grind arith

-- A number with no bit in common with its predecessor is a power of two.
land_pred :
    (bits n : ℕ)
    → n < 2 ^ bits
    → n ≢ 0
    → land bits n (n - 1) ≡ 0
    → (k : ℕ) × (k < bits) × (n ≡ 2 ^ k)
land_pred zero n h p e = absurd (p (omega arith))
land_pred (suc bits) n h p e = elim (parity n) [
  | inl even ↦
      let e' = subst (λ x. land (suc bits) x (x - 1) ≡ 0) even e in
      let (k, lt, is) =
        land_pred bits (n / 2) (omega (arith, pow_suc bits)) (λ z. p (omega arith))
          (omega (arith, e', land_even bits (n / 2) (λ z. p (omega arith)))) in
      (suc k, omega arith, omega (arith, pow_suc k))
  | inr odd ↦
      let e' = subst (λ x. land (suc bits) x (x - 1) ≡ 0) odd e in
      (
        0,
        omega arith,
        omega (
          arith,
          e',
          land_odd bits (n / 2),
          land_self bits (n / 2) (omega (arith, pow_suc bits)),
        ),
      )
]

land_zero : (bits b : ℕ) → land bits 0 b ≡ 0
unfolding land
land_zero zero b = refl
land_zero (suc bits) b = omega (arith, land_zero bits (b / 2))

pow-ne-zero : (k : ℕ) → 2 ^ k ≢ 0
pow-ne-zero zero = omega arith
pow-ne-zero (suc k) = omega (arith, pow-ne-zero k)

land_power : (bits k : ℕ) → k < bits → land bits (2 ^ k) (2 ^ k - 1) ≡ 0
land_power zero k h = absurd (omega arith)
land_power (suc bits) zero h = land_odd bits 0 ∙ omega (arith, land_zero bits 0)
land_power (suc bits) (suc k) h =
    rw (pow_suc k, land_even bits (2 ^ k) (pow-ne-zero k))
      (omega (arith, land_power bits k (omega arith)))

pow_le : (m d : ℕ) → 2 ^ m ≤ 2 ^ (m + d)
pow_le m zero = let e : m ≡ m + 0 = omega arith in subst (λ x. 2 ^ m ≤ 2 ^ x) e (omega arith)
pow_le m (suc d) =
    let e : suc (m + d) ≡ m + suc d = omega arith in
    subst (λ x. 2 ^ m ≤ 2 ^ x) e (omega (arith, pow_le m d, pow_suc (m + d)))

power_lt : (k : ℕ) → 2 ^ k < 2 ^ 64 → k < 64
power_lt k h = elim (Bool-cases (ltb k 64)) [
  | inl below ↦ ground arith
  | inr above ↦
      let le : 64 ≤ k = ground arith in
      let e : 64 + (k - 64) ≡ k = omega arith in
      let big = subst (λ x. 2 ^ 64 ≤ 2 ^ x) e (pow_le 64 (k - 64)) in absurd (omega arith)
]

sub_one : (n : ℕ) → n < 2 ^ 64 → n ≢ 0 → sub_u64 n 1 ≡ n - 1
sub_one n h p = omega arith

is_pow2-eq : (n : ℕ) → n < 2 ^ 64 → n ≢ 0 → is_pow2 n ≡ (land 64 n (n - 1) == 0)
unfolding is_pow2
is_pow2-eq n h p = rw (is_pow2, sub_one n h p) refl

-- The alignments that are not refused are the powers of two, for every 64-bit number.
pub is_refused_iff :
    (alignment : ℕ)
    → alignment < 2 ^ 64
    → (is_refused alignment ≡ false) ↔ ((k : ℕ) × (alignment ≡ 2 ^ k))
unfolding is_refused
is_refused_iff alignment h = (accepted, power)
  where
    accepted : is_refused alignment ≡ false → (k : ℕ) × (alignment ≡ 2 ^ k)
    accepted e =
        let nonzero : alignment ≢ 0 = ground arith in
        let (k, _, is) =
          land_pred 64 alignment h nonzero (ground (arith, is_pow2-eq alignment h nonzero)) in
        (k, is)

    power : ((k : ℕ) × (alignment ≡ 2 ^ k)) → is_refused alignment ≡ false
    power (k, e) =
        let nonzero : alignment ≢ 0 = λ z. pow-ne-zero k (sym e ∙ z) in
        let lt = power_lt k (subst (λ x. x < 2 ^ 64) e h) in
        let none_common = subst (λ x. land 64 x (x - 1) ≡ 0) (sym e) (land_power 64 k lt) in
        ground (arith, is_pow2-eq alignment h nonzero, none_common)
