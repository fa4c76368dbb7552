-- ===== src/Types/Identity.antt =====
-- What the identifiers of src/kernel/blockchaintypes.cpp commit to.
use crypto_kernel.Prelude.{ℕ, ◌+◌, ◌*◌, ◌<◌, ◌≡◌, false, sym, ◌∙◌, ap, [], ◌∷◌, ◌++◌, arith}
use mathlib.Core.List.{append_assoc}
use crypto_kernel.Decimal.{to_decimal, to_decimal-last}
use crypto_kernel.Env.{Env}
use crypto_kernel.Json.{to_string as json_to_string}
use crypto_kernel.Types.{hash_id, output_buffer, calculate_output_id}

module _ (env : Env) where
  open env.json use {Json}

  same_buffer :
      (v n w m : ℕ) (content : Json)
      → to_decimal v ++ to_decimal n ≡ to_decimal w ++ to_decimal m
      → output_buffer env v n content ≡ output_buffer env w m content
  unfolding output_buffer
  same_buffer v n w m content same =
      let text = json_to_string env.json content false in
      sym (append_assoc (to_decimal v) (to_decimal n) text)
      ∙ ap (λ s. s ++ text) same
      ∙ append_assoc (to_decimal w) (to_decimal m) text

  -- An output keeps its identifier, whatever the hash is, when the last digit `d` of its value `v *
  -- 10 + d` moves to the front of its nonce `n`, which gives the nonce `m` and the lower value `v`,
  -- where `v` is positive.
  pub output_id_ambiguous :
      (v d n m : ℕ) (content : Json)
      → 0 < v
      → d < 10
      → to_decimal m ≡ (b'0' + d) ∷ to_decimal n
      → (calculate_output_id env (v * 10 + d) n content ≡ calculate_output_id env v m content)
        × (v < v * 10 + d)
  unfolding calculate_output_id
  output_id_ambiguous v d n m content hv hd front = (
    ap (hash_id env) (
        same_buffer (v * 10 + d) n v m content (
          rw (to_decimal-last v d hv hd, front)
            (append_assoc (to_decimal v) ((b'0' + d) ∷ []) (to_decimal n)))),
    omega arith,
  )
