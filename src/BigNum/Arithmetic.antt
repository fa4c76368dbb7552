-- ===== src/BigNum/Arithmetic.antt =====
-- src/kernel/math.cpp: a `BigNum` as a signed number, which the consensus methods compute with: its
-- constructor from hexadecimal text, its printed form, its arithmetic and its comparisons.
use crypto_kernel.Prelude.{
  ℕ, ◌<◌, ◌≡◌, ◌≢◌, Bool, true, false, not, Option, none, some, [], ◌∷◌, map, ◌==◌, arith, All,
  if◌then◌else◌,
}
use crypto_kernel.Prelude.Int.{ℤ, pos, negsuc, ◌+ℤ◌, ◌-ℤ◌, ◌*ℤ◌, quotient, ltb_ℤ}
use crypto_kernel.BigNum.{Text, drop, to_lower, zeros_to_erase}
use crypto_kernel.Hex.{IsHexDigit, of_hex_from}

-- The functions of OpenSSL: `BN_hex2bn` into a new number, `BN_bn2hex`, the quotient and the success
-- of `BN_div`, and the others by their names.
pub record BnLib : Type 0 where
  pub hex2bn : Text → ℤ
  pub bn2hex : ℤ → Text
  pub bn_add : ℤ → ℤ → ℤ
  pub bn_sub : ℤ → ℤ → ℤ
  pub bn_mul : ℤ → ℤ → ℤ
  pub bn_div : ℤ → ℤ → Option ℤ
  pub bn_cmp : ℤ → ℤ → ℤ

-- What `BN_cmp` returns: -1, 0 or 1
abbrev pub order : ℤ → ℤ → ℤ
order a b = if ltb_ℤ a b then negsuc 0 else if ltb_ℤ b a then pos 1 else pos 0

-- What OpenSSL documents.
pub record IsExact (lib : BnLib) : Type 0 where
  pub adds : (a b : ℤ) → lib.bn_add a b ≡ a +ℤ b
  pub subtracts : (a b : ℤ) → lib.bn_sub a b ≡ a -ℤ b
  pub multiplies : (a b : ℤ) → lib.bn_mul a b ≡ a *ℤ b
  pub divides : (a : ℤ) (n : ℕ) → 0 < n → lib.bn_div a (pos n) ≡ some (quotient a n)
  pub compares : (a b : ℤ) → lib.bn_cmp a b ≡ order a b
  pub reads_digits :
      (c : ℕ) (s : Text) → All IsHexDigit (c ∷ s) → lib.hex2bn (c ∷ s) ≡ pos (of_hex_from 0 (c ∷ s))
  pub prints_digits :
      (n : ℕ)
      → All IsHexDigit (lib.bn2hex (pos n))
        × (lib.bn2hex (pos n) ≢ [])
        × (of_hex_from 0 (lib.bn2hex (pos n)) ≡ n)

module _ (lib : BnLib) where
  -- `BigNum(hexString)`
  unfoldable pub of_hex_string : Text → ℤ
  of_hex_string s = lib.hex2bn s

  -- `BigNum::toString`, of a number with a sign
  unfoldable pub signed_to_string : ℤ → Text
  signed_to_string z = let hex = map to_lower (lib.bn2hex z) in drop (zeros_to_erase hex) hex

  -- `BigNum::operator+` and its fellows
  pub plus : ℤ → ℤ → ℤ
  plus a b = lib.bn_add a b

  pub minus : ℤ → ℤ → ℤ
  minus a b = lib.bn_sub a b

  pub times : ℤ → ℤ → ℤ
  times a b = lib.bn_mul a b

  -- A division that fails leaves the new number that it was to fill, which is 0.
  pub divided_by : ℤ → ℤ → ℤ
  divided_by a b = elim (lib.bn_div a b) [ some q ↦ q | none ↦ pos 0 ]

  pub compare_to : ℤ → ℤ → ℤ
  compare_to a b = lib.bn_cmp a b

  pub equals : ℤ → ℤ → Bool
  unfolding compare_to
  equals a b = elim (compare_to a b) [ pos n ↦ n == 0 | negsuc n ↦ false ]

  pub differs : ℤ → ℤ → Bool
  unfolding compare_to
  differs a b = elim (compare_to a b) [ pos n ↦ not (n == 0) | negsuc n ↦ true ]

  unfoldable pub is_greater : ℤ → ℤ → Bool
  unfolding compare_to
  is_greater a b = ltb_ℤ (pos 0) (compare_to a b)

  pub is_less : ℤ → ℤ → Bool
  unfolding compare_to
  is_less a b = ltb_ℤ (compare_to a b) (pos 0)

  unfoldable pub is_at_least : ℤ → ℤ → Bool
  unfolding compare_to
  is_at_least a b = not (ltb_ℤ (compare_to a b) (pos 0))

  unfoldable pub is_at_most : ℤ → ℤ → Bool
  unfolding compare_to
  is_at_most a b = not (ltb_ℤ (pos 0) (compare_to a b))

  module _ (exact : IsExact lib) where
    pub is_greater-ltb : (a b : ℤ) → is_greater a b ≡ ltb_ℤ b a
    unfolding is_greater compare_to
    is_greater-ltb a b = ground (arith, exact.compares a b)

    pub is_less-ltb : (a b : ℤ) → is_less a b ≡ ltb_ℤ a b
    unfolding is_less compare_to
    is_less-ltb a b = ground (arith, exact.compares a b)

    pub is_at_most-ltb : (a b : ℤ) → is_at_most a b ≡ not (ltb_ℤ b a)
    unfolding is_at_most compare_to
    is_at_most-ltb a b = ground (arith, exact.compares a b)

    pub is_at_least-ltb : (a b : ℤ) → is_at_least a b ≡ not (ltb_ℤ a b)
    unfolding is_at_least compare_to
    is_at_least-ltb a b = ground (arith, exact.compares a b)

    pub equals→eq : (a b : ℤ) → equals a b ≡ true → a ≡ b
    unfolding equals compare_to
    equals→eq a b h = ground (arith, exact.compares a b)

    pub plus-add : (a b : ℤ) → plus a b ≡ a +ℤ b
    unfolding plus
    plus-add a b = exact.adds a b

    pub minus-sub : (a b : ℤ) → minus a b ≡ a -ℤ b
    unfolding minus
    minus-sub a b = exact.subtracts a b

    pub times-mul : (a b : ℤ) → times a b ≡ a *ℤ b
    unfolding times
    times-mul a b = exact.multiplies a b

    pub divided_by-quotient : (a : ℤ) (n : ℕ) → 0 < n → divided_by a (pos n) ≡ quotient a n
    unfolding divided_by
    divided_by-quotient a n positive = ground (arith, exact.divides a n positive)
