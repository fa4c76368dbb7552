-- ===== src/BigNum.antt =====
-- src/kernel/math.cpp: the printed form of a `BigNum`, and the OpenSSL functions that it and the
-- hashing code call. Identifiers and hashes are never negative, so a `BigNum` is a number here.
pub mod Print
pub mod Arithmetic
pub mod ReadBack
mod Tests
use crypto_kernel.Prelude.{
  ℕ, zero, suc, ◌+◌, ◌-◌, ◌≡◌, Option, none, some, Bool, List, [], ◌∷◌, map, ◌&&◌, min, leb, ◌==◌,
  if◌then◌else◌, length,
}

-- A `std::string`, as its bytes.
abbrev pub Text : Type 0
Text = List ℕ

-- The functions of OpenSSL: `SHA256` with its digest in hexadecimal, `BN_hex2bn`, `BN_bn2hex`.
pub record Hashing : Type 0 where
  pub sha256 : Text → Text
  pub from_hex : Text → ℕ
  pub to_hex : ℕ → Text

abbrev pub drop : ℕ → Text → Text
drop zero s = s
drop (suc n) [] = []
drop (suc n) (c ∷ s) = drop n s

-- `std::tolower` in the C locale.
unfoldable pub to_lower : ℕ → ℕ
to_lower c = if leb b'A' c && leb c b'Z' then c + 32 else c

-- `s.find_first_not_of('0')`; `none` for `npos`.
pub first_nonzero : Text → Option ℕ
first_nonzero [] = none
first_nonzero (c ∷ s) =
    let rest = first_nonzero s in
    if c == b'0' then elim rest [ none ↦ none | some i ↦ some (i + 1) ] else some 0

-- `std::min(s.find_first_not_of('0'), s.size() - 1)`
unfoldable pub zeros_to_erase : Text → ℕ
unfolding first_nonzero
zeros_to_erase s = elim (first_nonzero s) [ none ↦ length s - 1 | some i ↦ min i (length s - 1) ]

-- `BigNum::toString`
unfoldable pub to_string : Hashing → ℕ → Text
unfolding to_lower zeros_to_erase
to_string lib n = let hex = map to_lower (lib.to_hex n) in drop (zeros_to_erase hex) hex
