-- ===== src/Base/Decimal.antt =====
-- Decimal numbers in text, as the C and C++ library prints and reads them: `%d` and `<<` of a
-- number, and the scan of `strtol` that `atoi`, `atol` and `std::stoi` share.
pub mod RoundTrip
use hmsdk.Base.{
  ℕ, zero, suc, ◌+◌, ◌-◌, ◌*◌, ◌/◌, ◌%◌, ◌^◌, ◌≡◌, refl, Bool, true, false, ◌&&◌, ◌||◌, Option,
  none, some, [], ◌∷◌, Bytes, codes, ltb, leb, ◌==◌, if◌then◌else◌,
}
use hmsdk.Base.Int.{ℤ, pos, negsuc}

-- Each round divides by ten; the number of rounds is at most the number itself plus one.
digits_from : ℕ → ℕ → Bytes → Bytes
digits_from zero n out = out
digits_from (suc fuel) n out =
    let rest = digits_from fuel (n / 10) ((b'0' + n % 10) ∷ out) in
    if ltb n 10 then (b'0' + n) ∷ out else rest

unfoldable pub to_decimal : ℕ → Bytes
unfolding digits_from
to_decimal n = digits_from (suc n) n []

abbrev pub is_digit : ℕ → Bool
is_digit c = leb b'0' c && leb c b'9'

-- The value of the leading digits, behind those already read.
unfoldable pub read_digits : ℕ → Bytes → ℕ
read_digits n [] = n
read_digits n (c ∷ s) =
    let rest = read_digits (n * 10 + (c - b'0')) s in if is_digit c then rest else n

abbrev pub starts_with_digit : Bytes → Bool
starts_with_digit [] = false
starts_with_digit (c ∷ s) = is_digit c

abbrev is_space : ℕ → Bool
is_space c = c == 32 || leb 9 c && leb c 13

skip_spaces : Bytes → Bytes
skip_spaces [] = []
skip_spaces (c ∷ s) = let rest = skip_spaces s in if is_space c then rest else c ∷ s

-- `none`: there is no number at the front.
abbrev magnitude : Bytes → Option ℕ
magnitude s = if starts_with_digit s then some (read_digits 0 s) else none

abbrev as_pos : Option ℕ → Option ℤ
as_pos none = none
as_pos (some n) = some (pos n)

abbrev as_neg : Option ℕ → Option ℤ
as_neg none = none
as_neg (some zero) = some (pos 0)
as_neg (some (suc n)) = some (negsuc n)

signed : Bytes → Option ℤ
signed [] = none
signed (c ∷ s) =
    if c == b'-'
    then as_neg (magnitude s)
    else if c == b'+'
    then as_pos (magnitude s)
    else as_pos (magnitude (c ∷ s))

-- `strtol(s, &end, 10)` before the clamping: `none` if no conversion is made.
unfoldable pub strtol : Bytes → Option ℤ
unfolding skip_spaces signed read_digits
strtol s = signed (skip_spaces s)

abbrev in_int : ℤ → Bool
in_int (pos n) = ltb n (2 ^ 31)
in_int (negsuc n) = ltb n (2 ^ 31)

-- `std::stoi`: `none` is `std::invalid_argument` or `std::out_of_range`.
unfoldable pub stoi : Bytes → Option ℤ
unfolding strtol
stoi s = elim (strtol s) [ none ↦ none | some n ↦ if in_int n then some n else none ]

prints : to_decimal 1024 ≡ codes "1024"
unfolding to_decimal
prints = refl

reads : stoi (codes "  -42abc") ≡ some (negsuc 41)
unfolding stoi
reads = refl

refuses : stoi (codes "2147483648") ≡ none
unfolding stoi
refuses = refl
