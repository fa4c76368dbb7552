-- ===== src/Json/Objects.antt =====
-- Members of JSON objects that code builds one after the other, over what JsonCpp documents.
use crypto_kernel.Prelude.{◌≡◌, ◌∙◌, ap, true, false, ◌||◌, some, arith}
use crypto_kernel.BigNum.{Text}
use crypto_kernel.KeyMap.{text_eq, text_eq_refl}
use crypto_kernel.Json.{JsonLib, HasMembers, try_member}

module _ (lib : JsonLib) (laws : HasMembers lib) where
  open lib use {Json, null, is_null, is_object, member, set_member}

  abbrev pub IsContainer : Json → Type 0
  IsContainer j = (is_object j || is_null j) ≡ true

  pub null-IsContainer : IsContainer null
  null-IsContainer = ground (arith, laws.null_is_null)

  pub set_member-IsContainer :
      (j value : Json) (name : Text) → IsContainer j → IsContainer (set_member j name value)
  set_member-IsContainer j value name container =
      ground (arith, laws.is_object-set j value name container)

  pub member-set_same :
      (j value : Json) (name : Text) → IsContainer j → member (set_member j name value) name ≡ value
  member-set_same j value name container =
      ground (arith, laws.member-set j value name name container, text_eq_refl name)

  pub member-set_other :
      (j value : Json) (name other : Text)
      → IsContainer j
      → text_eq name other ≡ false
      → member (set_member j name value) other ≡ member j other
  member-set_other j value name other container differs =
      ground (arith, laws.member-set j value name other container)

  pub try_member-member :
      (j : Json) (name : Text) → IsContainer j → try_member lib j name ≡ some (member j name)
  unfolding try_member
  try_member-member j name container = ground (arith, container)

  pub try_member-set_same :
      (j value : Json) (name : Text)
      → IsContainer j
      → try_member lib (set_member j name value) name ≡ some value
  try_member-set_same j value name container =
      try_member-member (set_member j name value) name
        (set_member-IsContainer j value name container)
      ∙ ap some (member-set_same j value name container)

  pub try_member-set_other :
      (j value : Json) (name other : Text)
      → IsContainer j
      → text_eq name other ≡ false
      → try_member lib (set_member j name value) other ≡ try_member lib j other
  unfolding try_member
  try_member-set_other j value name other container differs = ground (
    arith,
    laws.is_object-set j value name container,
    laws.member-set j value name other container,
    container,
  )
