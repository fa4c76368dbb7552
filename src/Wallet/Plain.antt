-- ===== src/Wallet/Plain.antt =====
-- A concrete cipher and names for the tests of the wallet.
use crypto_kernel.Prelude.{some, [], ◌∷◌}
use crypto_kernel.BigNum.{Text}
use crypto_kernel.Wallet.{Cipher}

-- Nothing is hidden, whatever the password.
abbrev pub plain : Cipher
plain = record { Sealed = Text; seal = λ password s. s; unseal = λ s password. some s }

abbrev pub key_name : Text
key_name = b'k' ∷ []

abbrev pub account_name : Text
account_name = b'a' ∷ []
