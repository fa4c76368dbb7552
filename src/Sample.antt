-- ===== src/Sample.antt =====
-- A second concrete stand-in for what the kernel calls, for the tests of the chain: JSON values with
-- members, and signatures that are valid where they equal the key.
use crypto_kernel.Prelude.{
  false, not, ◌==◌, ◌≡◌, refl, sym, ◌∙◌, ap, Bool-cases, inl, inr, arith, ◌||◌, ℕ, true, false,
  none, some, List, [], ◌∷◌, if◌then◌else◌,
}
use crypto_kernel.BigNum.{Text}
use crypto_kernel.Decimal.{to_decimal}
use crypto_kernel.KeyMap.{text_eq, text_eq→eq, text_eq_refl}
use crypto_kernel.Json.{JsonLib, HasMembers}
use crypto_kernel.Env.{Env, Signing}
use crypto_kernel.Example.{toy_hashing}

-- An object is a chain of entries, and an array a chain of elements.
pub data Value : Type 0 where
  nothing : Value
  text : Text → Value
  number : ℕ → Value
  entry : Text → Value → Value → Value
  element : Value → Value → Value

abbrev pub value_member : Value → Text → Value
value_member (entry n v rest) name =
    let below = value_member rest name in if text_eq n name then v else below
value_member _ name = nothing

abbrev pub value_set_member : Value → Text → Value → Value
value_set_member (entry n v rest) name w =
    let below = value_set_member rest name w in
    if text_eq n name then entry n w rest else entry n v below
value_set_member _ name w = entry name w nothing

abbrev pub value_append : Value → Value → Value
value_append (element v rest) w = element v (value_append rest w)
value_append _ w = element w nothing

abbrev pub value_items : Value → List Value
value_items (element v rest) = v ∷ value_items rest
value_items (entry n v rest) = v ∷ value_items rest
value_items _ = []

abbrev pub sample_json : JsonLib
sample_json = record {
  Json = Value;
  null = nothing;
  of_uint = λ n. number n;
  of_text = λ s. text s;
  of_bool = λ b. number (if b then 1 else 0);
  member = value_member;
  set_member = value_set_member;
  append = value_append;
  is_null = λ j. elim j [ nothing ↦ true | _ ↦ false ];
  is_object = λ j. elim j [ entry _ _ _ ↦ true | _ ↦ false ];
  is_text = λ j. elim j [ text _ ↦ true | _ ↦ false ];
  is_array = λ j. elim j [ element _ _ ↦ true | _ ↦ false ];
  is_uint = λ j. elim j [ number _ ↦ true | _ ↦ false ];
  empty = λ j. elim j [ nothing ↦ true | _ ↦ false ];
  as_text = λ j. elim j [
    | nothing ↦ some []
    | text s ↦ some s
    | number n ↦ some (to_decimal n)
    | entry _ _ _ ↦ none
    | element _ _ ↦ none
  ];
  as_uint = λ j. elim j [ nothing ↦ some 0 | number n ↦ some n | _ ↦ none ];
  as_int = λ j. elim j [ nothing ↦ some 0 | number n ↦ some n | _ ↦ none ];
  as_bool = λ j. elim j [ nothing ↦ some false | number n ↦ some (not (n == 0)) | _ ↦ none ];
  items = value_items;
  write = λ pretty j. [];
  parse = λ s. none;
}

abbrev pub sample_signing : Signing
sample_signing = record {
  set_public_key = λ key. true;
  verify = λ key message signature. text_eq key signature;
  schnorr_set_public_key = λ key. true;
  schnorr_verify = λ key message signature. text_eq key signature;
  pubkey_aggregate = λ keys. [];
}

abbrev pub sample_env : Env
sample_env = record { hashing = toy_hashing; json = sample_json; signing = sample_signing }

member-set_member :
    (j value : Value) (name other : Text)
    → value_member (value_set_member j name value) other
      ≡ (if text_eq name other then value else value_member j other)
member-set_member nothing value name other = refl
member-set_member (text s) value name other = refl
member-set_member (number n) value name other = refl
member-set_member (element v rest) value name other = refl
member-set_member (entry n v rest) value name other = elim (Bool-cases (text_eq n name)) [
  | inl same ↦
      rw (same, ap (λ k. text_eq k other) (text_eq→eq n name same))
        (elim (Bool-cases (text_eq name other)) [
          | inl asked ↦ rw asked
          | inr else_asked ↦ rw else_asked
        ])
  | inr differs ↦
      rw (differs, member-set_member rest value name other)
        (entry_asked n name other v value (value_member rest other) differs)
]
  where
    entry_asked :
        (n name other : Text) (v value below : Value)
        → text_eq n name ≡ false
        → (if text_eq n other then v else if text_eq name other then value else below)
          ≡ (if text_eq name other then value else if text_eq n other then v else below)
    entry_asked n name other v value below differs = elim (Bool-cases (text_eq n other)) [
      | inr first ↦ rw first refl
      | inl first ↦ elim (Bool-cases (text_eq name other)) [
        | inr second ↦ rw (first, second) refl
        | inl second ↦
            let same = text_eq→eq n other first ∙ sym (text_eq→eq name other second) in
            absurd (ground (arith, ap (λ k. text_eq k name) same, text_eq_refl name))
      ]
    ]

set_is_object :
    (j value : Value) (name : Text)
    → (sample_json.is_object j || sample_json.is_null j) ≡ true
    → sample_json.is_object (value_set_member j name value) ≡ true
set_is_object nothing value name h = refl
set_is_object (text s) value name h = absurd (ground arith)
set_is_object (number n) value name h = absurd (ground arith)
set_is_object (element v rest) value name h = absurd (ground arith)
set_is_object (entry n v rest) value name h = elim (Bool-cases (text_eq n name)) [
  | inl same ↦ rw same refl
  | inr differs ↦ rw differs refl
]

pub sample_json-HasMembers : HasMembers sample_json
sample_json-HasMembers = record {
  null_is_null = refl;
  is_object-set = set_is_object;
  member-set = λ j value name other container. member-set_member j value name other;
  text_of_text = λ s. refl;
  uint_of_uint = λ n. refl;
  bool_of_bool = λ b. ground arith;
}
