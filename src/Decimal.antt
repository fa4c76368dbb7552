-- ===== src/Decimal.antt =====
-- The decimal form that `std::to_string` and `operator<<` give an unsigned integer.
use native.Mathlib.Numerals.{add-one}
use crypto_kernel.Prelude.{
  ℕ, zero, suc, ◌+◌, ◌-◌, ◌*◌, ◌/◌, ◌%◌, ◌≤◌, ◌<◌, ◌≡◌, ◌∙◌, refl, sym, ap, [], ◌∷◌, ◌++◌, ltb,
  if◌then◌else◌, arith, All, Bool-cases, inl, inr, ltb→lt, false,
}
use crypto_kernel.BigNum.{Text}

digits : ℕ → ℕ → Text
digits zero n = []
digits (suc fuel) n =
    let higher = digits fuel (n / 10) in
    if ltb n 10 then (b'0' + n) ∷ [] else higher ++ (b'0' + n % 10) ∷ []

-- A number has no more digits than its value, so the fuel is enough: see `of_decimal-to_decimal`.
unfoldable pub to_decimal : ℕ → Text
unfolding digits
to_decimal n = digits (n + 1) n

-- The number that a decimal text stands for.
abbrev pub of_decimal_from : ℕ → Text → ℕ
of_decimal_from acc [] = acc
of_decimal_from acc (c ∷ s) = of_decimal_from (acc * 10 + (c - b'0')) s

abbrev pub IsDigit : ℕ → Type 0
IsDigit c = (b'0' ≤ c) × (c ≤ b'9')

of_decimal_from-append :
    (acc : ℕ) (s : Text) (c : ℕ)
    → of_decimal_from acc (s ++ c ∷ []) ≡ of_decimal_from acc s * 10 + (c - b'0')
of_decimal_from-append acc [] c = refl
of_decimal_from-append acc (d ∷ s) c = of_decimal_from-append (acc * 10 + (d - b'0')) s c

of_decimal-digits : (fuel n : ℕ) → n < fuel → of_decimal_from 0 (digits fuel n) ≡ n
unfolding digits
of_decimal-digits zero n h = absurd (omega arith)
of_decimal-digits (suc fuel) n h = elim (Bool-cases (ltb n 10)) [
  | inl one ↦ rw one (omega arith)
  | inr more ↦ rw more (
      of_decimal_from-append 0 (digits fuel (n / 10)) (b'0' + n % 10)
      ∙ rw (of_decimal-digits fuel (n / 10) (ground arith)) (omega arith))
]

-- Printing loses nothing.
pub of_decimal-to_decimal : (n : ℕ) → of_decimal_from 0 (to_decimal n) ≡ n
unfolding to_decimal
of_decimal-to_decimal n = of_decimal-digits (n + 1) n (omega arith)

pub to_decimal-injective : (a b : ℕ) → to_decimal a ≡ to_decimal b → a ≡ b
to_decimal-injective a b h =
    sym (of_decimal-to_decimal a) ∙ (ap (of_decimal_from 0) h ∙ of_decimal-to_decimal b)

All-append : (P : ℕ → Type 0) (s t : Text) → All P s → All P t → All P (s ++ t)
All-append P [] t hs ht = ht
All-append P (c ∷ s) t hs ht = (hs.0, All-append P s t hs.1 ht)

digits-IsDigit : (fuel n : ℕ) → All IsDigit (digits fuel n)
unfolding digits
digits-IsDigit zero n = tt
digits-IsDigit (suc fuel) n = elim (Bool-cases (ltb n 10)) [
  | inl one ↦ rw one (omega (arith, ltb→lt n 10 one))
  | inr more ↦ rw more (
      All-append IsDigit (digits fuel (n / 10)) ((b'0' + n % 10) ∷ [])
        (digits-IsDigit fuel (n / 10)) (omega arith))
]

pub to_decimal-IsDigit : (n : ℕ) → All IsDigit (to_decimal n)
unfolding to_decimal
to_decimal-IsDigit n = digits-IsDigit (n + 1) n

digits_fuel : (f g n : ℕ) → n < f → n < g → digits f n ≡ digits g n
unfolding digits
digits_fuel zero g n hf hg = absurd (omega arith)
digits_fuel (suc f) zero n hf hg = absurd (omega arith)
digits_fuel (suc f) (suc g) n hf hg = elim (Bool-cases (ltb n 10)) [
  | inl one ↦ rw one
  | inr more ↦
      rw more (
        ap (λ s. s ++ (b'0' + n % 10) ∷ [])
          (digits_fuel f g (n / 10) (ground arith) (ground arith)))
]

-- A number of several digits is the number of all but the last, and the last.
pub to_decimal-last :
    (v d : ℕ) → 0 < v → d < 10 → to_decimal (v * 10 + d) ≡ to_decimal v ++ (b'0' + d) ∷ []
unfolding to_decimal digits
to_decimal-last v d hv hd =
    let n = v * 10 + d in
    let high : n / 10 ≡ v = omega arith in
    let low : n % 10 ≡ d = omega arith in
    let more : ltb n 10 ≡ false = ground arith in
    rw (add-one n) (
      rw (more, high, low)
        (ap (λ s. s ++ (b'0' + d) ∷ []) (digits_fuel n (v + 1) v (omega arith) (omega arith))))
