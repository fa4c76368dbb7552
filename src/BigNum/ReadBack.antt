-- ===== src/BigNum/ReadBack.antt =====
-- A `BigNum` that is not negative, printed and read again by the functions of src/kernel/math.cpp, and
-- a concrete stand-in for OpenSSL's big numbers.
use native.Mathlib.Decide.{ℕ_discrete}
use crypto_kernel.Prelude.{
  ℕ, ◌+◌, ◌*◌, ◌<◌, ◌≡◌, ◌≢◌, refl, ◌∙◌, ap, some, none, [], ◌∷◌, map, ◌==◌, arith, All,
  if◌then◌else◌,
}
use crypto_kernel.Prelude.Int.{ℤ, pos, negsuc, ◌+ℤ◌, ◌-ℤ◌, ◌*ℤ◌, quotient}
use crypto_kernel.BigNum.{Text, drop, to_lower, zeros_to_erase}
use crypto_kernel.BigNum.Print.{zeros_to_erase_one, zeros_to_erase_zero, zeros_to_erase_other}
use crypto_kernel.BigNum.Arithmetic.{BnLib, IsExact, order, of_hex_string, signed_to_string}
use crypto_kernel.Hex.{
  IsHexDigit, hex_value, of_hex_from, to_hex, of_hex-to_hex, to_hex-IsHexDigit, to_hex-ne-nil,
}

hex_value-to_lower : (c : ℕ) → IsHexDigit c → hex_value (to_lower c) ≡ hex_value c
unfolding hex_value to_lower
hex_value-to_lower c h = ground arith

to_lower-IsHexDigit : (c : ℕ) → IsHexDigit c → IsHexDigit (to_lower c)
unfolding to_lower
to_lower-IsHexDigit c h = ground arith

map-IsHexDigit : (s : Text) → All IsHexDigit s → All IsHexDigit (map to_lower s)
map-IsHexDigit [] h = tt
map-IsHexDigit (c ∷ s) h = (to_lower-IsHexDigit c h.0, map-IsHexDigit s h.1)

of_hex-map :
    (acc : ℕ) (s : Text) → All IsHexDigit s → of_hex_from acc (map to_lower s) ≡ of_hex_from acc s
unfolding of_hex_from
of_hex-map acc [] h = refl
of_hex-map acc (c ∷ s) h =
    ap (λ v. of_hex_from (acc * 16 + v) (map to_lower s)) (hex_value-to_lower c h.0)
    ∙ of_hex-map (acc * 16 + hex_value c) s h.1

-- What `toString` leaves of the digits: some of them, with the same value.
record Keeps (s t : Text) : Type 0 where
  first : ℕ
  others : Text
  shape : t ≡ first ∷ others
  digits : All IsHexDigit (first ∷ others)
  value : of_hex_from 0 (first ∷ others) ≡ of_hex_from 0 s

drop_zeros-Keeps :
    (c : ℕ) (s : Text)
    → All IsHexDigit (c ∷ s)
    → Keeps (c ∷ s) (drop (zeros_to_erase (c ∷ s)) (c ∷ s))
drop_zeros-Keeps c [] h = record {
  first = c;
  others = [];
  shape = rw (zeros_to_erase_one c);
  digits = h;
  value = refl;
}
drop_zeros-Keeps c (d ∷ s) h = elim (ℕ_discrete c b'0') [
  | yes zero_first ↦
      let below = drop_zeros-Keeps d s h.1 in
      record {
        first = below.first;
        others = below.others;
        shape = rw (zero_first, zeros_to_erase_zero d s) below.shape;
        digits = below.digits;
        value = below.value ∙ rw zero_first (unfold of_hex_from hex_value in refl);
      }
  | no other ↦ record {
    first = c;
    others = d ∷ s;
    shape = rw (zeros_to_erase_other c (d ∷ s) other);
    digits = h;
    value = refl;
  }
]

module _ (lib : BnLib) (exact : IsExact lib) where
  read_digits :
      (n : ℕ) (s : Text)
      → lib.bn2hex (pos n) ≡ s
      → s ≢ []
      → All IsHexDigit s
      → of_hex_from 0 s ≡ n
      → lib.hex2bn (signed_to_string lib (pos n)) ≡ pos n
  unfolding signed_to_string
  read_digits n [] printed some_digit digits value = absurd (some_digit refl)
  read_digits n (c ∷ s) printed some_digit digits value =
      let kept = drop_zeros-Keeps (to_lower c) (map to_lower s) (map-IsHexDigit (c ∷ s) digits) in
      rw (printed, kept.shape)
        (exact.reads_digits kept.first kept.others kept.digits
          ∙ ap pos (kept.value ∙ (of_hex-map 0 (c ∷ s) digits ∙ value)))

  -- `BigNum(n.toString())` is `n` again, if `n` is not negative.
  pub of_hex_string-signed_to_string :
      (n : ℕ) → of_hex_string lib (signed_to_string lib (pos n)) ≡ pos n
  unfolding of_hex_string
  of_hex_string-signed_to_string n =
      let printed = exact.prints_digits n in
      read_digits n (lib.bn2hex (pos n)) refl printed.1 printed.0 printed.2

  read_printed :
      (n : ℕ) (s : Text)
      → to_hex n ≡ s
      → s ≢ []
      → All IsHexDigit s
      → of_hex_from 0 s ≡ n
      → lib.hex2bn (to_hex n) ≡ pos n
  read_printed n [] printed some_digit digits value = absurd (some_digit refl)
  read_printed n (c ∷ s) printed some_digit digits value =
      rw printed (exact.reads_digits c s digits ∙ ap pos value)

  -- A number written after `std::hex` is read as itself.
  pub of_hex_string-to_hex : (n : ℕ) → of_hex_string lib (to_hex n) ≡ pos n
  unfolding of_hex_string
  of_hex_string-to_hex n =
      read_printed n (to_hex n) refl (to_hex-ne-nil n) (to_hex-IsHexDigit n) (of_hex-to_hex n)

-- Numbers of any size, printed without a leading zero; a `-` is read and printed as a sign.
abbrev pub sample_bn : BnLib
sample_bn = record {
  hex2bn = λ s. elim s [
    | [] ↦ pos 0
    | c ∷ t ↦ if c == b'-' then pos 0 -ℤ pos (of_hex_from 0 t) else pos (of_hex_from 0 (c ∷ t))
  ];
  bn2hex = λ z. elim z [ pos n ↦ to_hex n | negsuc n ↦ b'-' ∷ to_hex (n + 1) ];
  bn_add = λ a b. a +ℤ b;
  bn_sub = λ a b. a -ℤ b;
  bn_mul = λ a b. a *ℤ b;
  bn_div = λ a b. elim b [
    | pos n ↦ if n == 0 then none else some (quotient a n)
    | negsuc n ↦ some (pos 0 -ℤ quotient a (n + 1))
  ];
  bn_cmp = order;
}

sample_reads :
    (c : ℕ) (s : Text)
    → All IsHexDigit (c ∷ s)
    → sample_bn.hex2bn (c ∷ s) ≡ pos (of_hex_from 0 (c ∷ s))
sample_reads c s h = ground (arith, h.0)

sample_divides : (a : ℤ) (n : ℕ) → 0 < n → sample_bn.bn_div a (pos n) ≡ some (quotient a n)
sample_divides a n h = ground arith

pub sample_bn-IsExact : IsExact sample_bn
sample_bn-IsExact = record {
  adds = λ a b. refl;
  subtracts = λ a b. refl;
  multiplies = λ a b. refl;
  divides = sample_divides;
  compares = λ a b. refl;
  reads_digits = sample_reads;
  prints_digits = λ n. (to_hex-IsHexDigit n, to_hex-ne-nil n, of_hex-to_hex n);
}
