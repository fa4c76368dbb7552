-- ===== src/Hex.antt =====
-- The hexadecimal form that `operator<<` gives an unsigned integer after `std::hex`, and the number
-- that hexadecimal digits of either case stand for.
use native.Mathlib.Numerals.{add-one}
use crypto_kernel.Prelude.{
  ◌≢◌, length, length-append, ap, ℕ, zero, suc, ◌+◌, ◌-◌, ◌*◌, ◌/◌, ◌%◌, ◌≤◌, ◌<◌, ◌≡◌, ◌⊎◌, ◌∙◌,
  refl, [], ◌∷◌, ◌++◌, ltb, leb, if◌then◌else◌, arith, All, Bool-cases, inl, inr, ltb→lt,
}
use crypto_kernel.BigNum.{Text}

hex_digit : ℕ → ℕ
hex_digit d = if ltb d 10 then b'0' + d else b'a' + (d - 10)

hex_digits : ℕ → ℕ → Text
unfolding hex_digit
hex_digits zero n = []
hex_digits (suc fuel) n =
    let higher = hex_digits fuel (n / 16) in
    if ltb n 16 then hex_digit n ∷ [] else higher ++ hex_digit (n % 16) ∷ []

-- A number has no more digits than its value, so the fuel is enough: see `of_hex-to_hex`.
unfoldable pub to_hex : ℕ → Text
unfolding hex_digits
to_hex n = hex_digits (n + 1) n

unfoldable pub hex_value : ℕ → ℕ
hex_value c = if leb b'a' c then c - b'a' + 10 else if leb b'A' c then c - b'A' + 10 else c - b'0'

unfoldable pub of_hex_from : ℕ → Text → ℕ
unfolding hex_value
of_hex_from acc [] = acc
of_hex_from acc (c ∷ s) = of_hex_from (acc * 16 + hex_value c) s

-- A digit of base sixteen, of either case.
abbrev pub IsHexDigit : ℕ → Type 0
IsHexDigit c = ((b'0' ≤ c) × (c ≤ b'9')) ⊎ ((b'A' ≤ c) × (c ≤ b'F')) ⊎ ((b'a' ≤ c) × (c ≤ b'f'))

hex_value-hex_digit : (d : ℕ) → d < 16 → hex_value (hex_digit d) ≡ d
unfolding hex_value hex_digit
hex_value-hex_digit d h = ground arith

hex_digit-IsHexDigit : (d : ℕ) → d < 16 → IsHexDigit (hex_digit d)
unfolding hex_digit
hex_digit-IsHexDigit d h = ground arith

of_hex_from-append :
    (acc : ℕ) (s : Text) (c : ℕ)
    → of_hex_from acc (s ++ c ∷ []) ≡ of_hex_from acc s * 16 + hex_value c
unfolding of_hex_from
of_hex_from-append acc [] c = refl
of_hex_from-append acc (d ∷ s) c = of_hex_from-append (acc * 16 + hex_value d) s c

one_digit : (n : ℕ) → n < 16 → of_hex_from 0 (hex_digit n ∷ []) ≡ n
unfolding of_hex_from
one_digit n h = ground (arith, hex_value-hex_digit n h)

of_hex-digits : (fuel n : ℕ) → n < fuel → of_hex_from 0 (hex_digits fuel n) ≡ n
unfolding hex_digits
of_hex-digits zero n h = absurd (omega arith)
of_hex-digits (suc fuel) n h = elim (Bool-cases (ltb n 16)) [
  | inl one ↦ rw one (one_digit n (ltb→lt n 16 one))
  | inr more ↦ rw more (
      of_hex_from-append 0 (hex_digits fuel (n / 16)) (hex_digit (n % 16))
      ∙ rw (of_hex-digits fuel (n / 16) (ground arith), hex_value-hex_digit (n % 16) (omega arith))
          (omega arith))
]

-- Printing loses nothing.
pub of_hex-to_hex : (n : ℕ) → of_hex_from 0 (to_hex n) ≡ n
unfolding to_hex
of_hex-to_hex n = of_hex-digits (n + 1) n (omega arith)

All-append : (P : ℕ → Type 0) (s t : Text) → All P s → All P t → All P (s ++ t)
All-append P [] t hs ht = ht
All-append P (c ∷ s) t hs ht = (hs.0, All-append P s t hs.1 ht)

hex_digits-IsHexDigit : (fuel n : ℕ) → All IsHexDigit (hex_digits fuel n)
unfolding hex_digits
hex_digits-IsHexDigit zero n = tt
hex_digits-IsHexDigit (suc fuel) n = elim (Bool-cases (ltb n 16)) [
  | inl one ↦ rw one (hex_digit-IsHexDigit n (ltb→lt n 16 one), tt)
  | inr more ↦ rw more (
      All-append IsHexDigit (hex_digits fuel (n / 16)) (hex_digit (n % 16) ∷ [])
        (hex_digits-IsHexDigit fuel (n / 16)) (hex_digit-IsHexDigit (n % 16) (omega arith), tt))
]

pub to_hex-IsHexDigit : (n : ℕ) → All IsHexDigit (to_hex n)
unfolding to_hex
to_hex-IsHexDigit n = hex_digits-IsHexDigit (n + 1) n

digits_left : (s : Text) (c : ℕ) → s ++ c ∷ [] ≢ []
digits_left s c h = omega (arith, ap length h, length-append s (c ∷ []))

pub to_hex-ne-nil : (n : ℕ) → to_hex n ≢ []
unfolding to_hex hex_digits
to_hex-ne-nil n = rw (add-one n) (elim (Bool-cases (ltb n 16)) [
  | inl one ↦ rw one (λ h. ground (arith, h))
  | inr more ↦ rw more (digits_left (hex_digits n (n / 16)) (hex_digit (n % 16)))
])
