-- ===== src/BigNum/Print.antt =====
-- The printed form of a `BigNum` is normal: lower case, with no leading zero but in "0" itself.
use native.Mathlib.Decide.{ℕ_discrete}
use crypto_kernel.Prelude.{ℕ, zero, suc, ◌<◌, ◌≡◌, ◌≢◌, ◌⊎◌, [], ◌∷◌, map, arith, All}
use crypto_kernel.BigNum.{Text, Hashing, drop, to_lower, zeros_to_erase, to_string}

-- No upper-case letter of ASCII.
abbrev pub IsLower : ℕ → Type 0
IsLower c = (c < b'A') ⊎ (b'Z' < c)

-- Empty, one character, or a first character that is no zero.
abbrev pub IsStripped : Text → Type 0
IsStripped [] = Unit
IsStripped (c ∷ []) = Unit
IsStripped (c ∷ d ∷ s) = c ≢ b'0'

to_lower-IsLower : (c : ℕ) → IsLower (to_lower c)
unfolding to_lower
to_lower-IsLower c = ground arith

map-to_lower-IsLower : (s : Text) → All IsLower (map to_lower s)
map-to_lower-IsLower [] = tt
map-to_lower-IsLower (c ∷ s) = (to_lower-IsLower c, map-to_lower-IsLower s)

drop-All : (n : ℕ) (s : Text) → All IsLower s → All IsLower (drop n s)
drop-All zero s h = h
drop-All (suc n) [] h = tt
drop-All (suc n) (c ∷ s) h = drop-All n s h.1

pub zeros_to_erase_one : (c : ℕ) → zeros_to_erase (c ∷ []) ≡ 0
unfolding zeros_to_erase
zeros_to_erase_one c = ground arith

pub zeros_to_erase_zero :
    (d : ℕ) (s : Text) → zeros_to_erase (b'0' ∷ d ∷ s) ≡ suc (zeros_to_erase (d ∷ s))
unfolding zeros_to_erase
zeros_to_erase_zero d s = ground arith

pub zeros_to_erase_other : (c : ℕ) (s : Text) → c ≢ b'0' → zeros_to_erase (c ∷ s) ≡ 0
unfolding zeros_to_erase
zeros_to_erase_other c s h = ground arith

drop_zeros-IsStripped : (s : Text) → IsStripped (drop (zeros_to_erase s) s)
unfolding zeros_to_erase
drop_zeros-IsStripped [] = tt
drop_zeros-IsStripped (c ∷ []) = rw (zeros_to_erase_one c) tt
drop_zeros-IsStripped (c ∷ d ∷ s) = elim (ℕ_discrete c b'0') [
  | yes zero_first ↦ rw (zero_first, zeros_to_erase_zero d s) (drop_zeros-IsStripped (d ∷ s))
  | no other ↦ rw (zeros_to_erase_other c (d ∷ s) other) other
]

-- Whatever `BN_bn2hex` returns, the text has no upper-case letter, and its first character is a
-- zero only if it is the whole text.
pub to_string-normal :
    (lib : Hashing) (n : ℕ) → All IsLower (to_string lib n) × IsStripped (to_string lib n)
unfolding to_string
to_string-normal lib n =
    let hex = map to_lower (lib.to_hex n) in
    (
      drop-All (zeros_to_erase hex) hex (map-to_lower-IsLower (lib.to_hex n)),
      drop_zeros-IsStripped hex,
    )
