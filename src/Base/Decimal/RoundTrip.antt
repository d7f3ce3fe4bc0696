-- ===== src/Base/Decimal/RoundTrip.antt =====
-- Reading a number that was printed.
use hmsdk.Base.{
  ℕ, zero, suc, ◌+◌, ◌*◌, ◌/◌, ◌%◌, ◌^◌, ◌<◌, ◌≡◌, refl, true, false, some, [], ◌∷◌, ◌++◌, arith,
  Bytes, Lacks,
}
use hmsdk.Base.Int.{pos}
use hmsdk.Base.Decimal.{
  digits_from, to_decimal, is_digit, read_digits, starts_with_digit, strtol, stoi,
}

digits_from-append :
    (f n : ℕ) (out rest : Bytes) → digits_from f n out ++ rest ≡ digits_from f n (out ++ rest)
unfolding digits_from
digits_from-append zero n out rest = refl
digits_from-append (suc f) n out rest =
    ground (arith, digits_from-append f (n / 10) ((b'0' + n % 10) ∷ out) rest)

read_digit :
    (n d : ℕ) (out : Bytes)
    → d < 10
    → read_digits n ((b'0' + d) ∷ out) ≡ read_digits (n * 10 + d) out
unfolding read_digits
read_digit n d out h = ground arith

read_digits-digits_from :
    (f n : ℕ) (out : Bytes) → n < f → read_digits 0 (digits_from f n out) ≡ read_digits n out
unfolding digits_from
read_digits-digits_from zero n out h = elim h [ ]
read_digits-digits_from (suc f) n out h = ground (
  arith,
  read_digit 0 n out,
  read_digit (n / 10) (n % 10) out,
  read_digits-digits_from f (n / 10) ((b'0' + n % 10) ∷ out),
)

read_digits_end : (n : ℕ) (rest : Bytes) → starts_with_digit rest ≡ false → read_digits n rest ≡ n
unfolding read_digits
read_digits_end n [] h = refl
read_digits_end n (c ∷ s) h = ground arith

-- The first character and the characters are digits, whatever stands behind.
starts_with_digit-digits_from :
    (f n : ℕ) (out : Bytes) → n < f → starts_with_digit (digits_from f n out) ≡ true
unfolding digits_from
starts_with_digit-digits_from zero n out h = elim h [ ]
starts_with_digit-digits_from (suc f) n out h =
    ground (arith, starts_with_digit-digits_from f (n / 10) ((b'0' + n % 10) ∷ out))

Lacks-digits_from :
    (c f n : ℕ) (out : Bytes) → is_digit c ≡ false → Lacks c out → Lacks c (digits_from f n out)
unfolding digits_from
Lacks-digits_from c zero n out h l = l
Lacks-digits_from c (suc f) n out h l =
    ground (arith, Lacks-digits_from c f (n / 10) ((b'0' + n % 10) ∷ out) h)

pub read_digits-to_decimal :
    (n : ℕ) (rest : Bytes)
    → starts_with_digit rest ≡ false
    → read_digits 0 (to_decimal n ++ rest) ≡ n
unfolding to_decimal
read_digits-to_decimal n rest h =
    rw (digits_from-append (suc n) n [] rest, read_digits-digits_from (suc n) n rest (omega arith))
      (read_digits_end n rest h)

pub starts_with_digit-to_decimal :
    (n : ℕ) (rest : Bytes) → starts_with_digit (to_decimal n ++ rest) ≡ true
unfolding to_decimal
starts_with_digit-to_decimal n rest =
    rw (digits_from-append (suc n) n [] rest)
      (starts_with_digit-digits_from (suc n) n rest (omega arith))

pub Lacks-to_decimal : (c n : ℕ) → is_digit c ≡ false → Lacks c (to_decimal n)
unfolding to_decimal
Lacks-to_decimal c n h = Lacks-digits_from c (suc n) n [] h tt

strtol_digits : (s : Bytes) → starts_with_digit s ≡ true → strtol s ≡ some (pos (read_digits 0 s))
unfolding strtol
strtol_digits [] h = cc
strtol_digits (c ∷ s) h = ground arith

pub strtol-to_decimal :
    (n : ℕ) (rest : Bytes)
    → starts_with_digit rest ≡ false
    → strtol (to_decimal n ++ rest) ≡ some (pos n)
strtol-to_decimal n rest h = rw (
  strtol_digits (to_decimal n ++ rest) (starts_with_digit-to_decimal n rest),
  read_digits-to_decimal n rest h,
)

pub stoi-to_decimal :
    (n : ℕ) (rest : Bytes)
    → starts_with_digit rest ≡ false
    → n < 2 ^ 31
    → stoi (to_decimal n ++ rest) ≡ some (pos n)
unfolding stoi
stoi-to_decimal n rest h lt = ground (arith, strtol-to_decimal n rest h)

pub to_decimal_digit : (n : ℕ) → n < 10 → to_decimal n ≡ (b'0' + n) ∷ []
unfolding to_decimal digits_from
to_decimal_digit n h = ground arith
