-- ===== src/Example.antt =====
-- Concrete stand-ins for what the kernel calls and does not contain, for the tests: a hash that is
-- the number of its text in base ten behind a leading 7, JSON values that are texts, and signatures
-- that are valid where they equal the message.
use crypto_kernel.Prelude.{
  ◌≡◌, refl, true, false, Option, none, some, [], ◌∷◌, ◌++◌, length, ◌==◌, ltb,
}
use crypto_kernel.BigNum.{Text, Hashing}
use crypto_kernel.Decimal.{to_decimal, of_decimal_from}
use crypto_kernel.KeyMap.{text_eq}
use crypto_kernel.Json.{JsonLib, RoundTrips, to_json, to_string}
use crypto_kernel.Env.{Env, Signing}

abbrev pub toy_hashing : Hashing
toy_hashing = record {
  sha256 = λ s. s;
  from_hex = λ s. of_decimal_from 7 s;
  to_hex = λ n. to_decimal n;
}

-- All but the last character.
abbrev pub init : Text → Option Text
init [] = none
init (c ∷ s) = elim (init s) [ none ↦ some [] | some t ↦ some (c ∷ t) ]

abbrev pub toy_json : JsonLib
toy_json = record {
  Json = Text;
  null = [];
  of_uint = λ n. to_decimal n;
  of_text = λ s. s;
  of_bool = λ b. [];
  member = λ j name. [];
  set_member = λ j name v. j ++ v;
  append = λ j v. j ++ v;
  is_null = λ j. length j == 0;
  is_object = λ j. ltb 0 (length j);
  is_text = λ j. true;
  is_array = λ j. false;
  is_uint = λ j. true;
  empty = λ j. length j == 0;
  as_text = λ j. some j;
  as_uint = λ j. some (of_decimal_from 0 j);
  as_int = λ j. some (of_decimal_from 0 j);
  as_bool = λ j. some (ltb 0 (length j));
  items = λ j. [];
  write = λ pretty j. j;
  parse = λ s. init s;
}

init-append : (s : Text) → init (s ++ 10 ∷ []) ≡ some s
init-append [] = refl
init-append (c ∷ s) = rw (init-append s, init)

pub toy_json-RoundTrips : RoundTrips toy_json
unfolding to_json to_string
toy_json-RoundTrips = record { read_back = λ j. rw (init-append j); read_nothing = refl }

abbrev pub toy_signing : Signing
toy_signing = record {
  set_public_key = λ key. true;
  verify = λ key message signature. text_eq message signature;
  schnorr_set_public_key = λ key. true;
  schnorr_verify = λ key message signature. text_eq message signature;
  pubkey_aggregate = λ keys. [];
}

abbrev pub toy_env : Env
toy_env = record { hashing = toy_hashing; json = toy_json; signing = toy_signing }
