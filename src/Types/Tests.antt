-- ===== src/Types/Tests.antt =====
-- Outputs and transactions under the toy hash, and the theorems of src/kernel/blockchaintypes.cpp's
-- model at them.
use crypto_kernel.Prelude.{◌+◌, ◌*◌, ◌<◌, ◌≡◌, ◌↔◌, refl, false, [], ◌∷◌, arith}
use crypto_kernel.Decimal.{to_decimal}
use crypto_kernel.Example.{toy_env}
use crypto_kernel.Outcome.{ok}
use crypto_kernel.Types.{Output, Input, calculate_output_id}
use crypto_kernel.Types.Transaction.{check_transaction}
use crypto_kernel.Types.Transaction.Valid.{IsValid, check_transaction-IsValid}
use crypto_kernel.Types.Identity.{output_id_ambiguous}

-- The value 12 with the nonce 3, and the value 1 with the nonce 23.
output_id_ambiguous_example :
    (calculate_output_id toy_env (1 * 10 + 2) 3 [] ≡ calculate_output_id toy_env 1 23 [])
    × (1 < 1 * 10 + 2)
unfolding to_decimal
output_id_ambiguous_example =
    output_id_ambiguous toy_env 1 2 3 23 [] (omega arith) (omega arith) refl

abbrev coin : Output toy_env
coin = record { value = 50; nonce = 1; content = []; id = 7 }

abbrev spend : Input toy_env
spend = record { output_id = 8; content = []; id = 9 }

check_transaction-IsValid_example :
    (check_transaction toy_env (spend ∷ []) (coin ∷ []) 90 false ≡ ok tt)
    ↔ IsValid toy_env (spend ∷ []) (coin ∷ []) 90 false
check_transaction-IsValid_example =
    check_transaction-IsValid toy_env (spend ∷ []) (coin ∷ []) 90 false (omega arith, tt)

accepts : check_transaction toy_env (spend ∷ []) (coin ∷ []) 90 false ≡ ok tt
accepts = check_transaction-IsValid_example.1 (record {
  small = omega arith;
  makes = omega arith;
  spends = omega arith;
  total = omega arith;
  distinct = (refl, (refl, tt));
})
