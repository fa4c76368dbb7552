-- ===== src/BigNum/Tests.antt =====
-- The printed form of a number under the toy hash.
use crypto_kernel.Prelude.{refl, ◌≡◌, [], ◌∷◌}
use crypto_kernel.BigNum.{drop, zeros_to_erase}

strips : drop (zeros_to_erase (b'0' ∷ b'0' ∷ b'7' ∷ [])) (b'0' ∷ b'0' ∷ b'7' ∷ []) ≡ b'7' ∷ []
unfolding zeros_to_erase
strips = refl
