-- ===== src/Json.antt =====
-- JsonCpp, which the program calls and does not contain: the values, what the code asks of them, and
-- the writer and reader. `none` is a `Json::Exception`.
pub mod Objects
use crypto_kernel.Prelude.{
  ℕ, ◌≡◌, Bool, true, false, ◌||◌, Option, some, none, List, [], ◌++◌, ◌∷◌, if◌then◌else◌,
}
use crypto_kernel.BigNum.{Text}
use crypto_kernel.KeyMap.{text_eq}

pub record JsonLib : Type 1 where
  pub Json : Type 0
  pub null : Json
  pub of_uint : ℕ → Json
  pub of_text : Text → Json
  pub of_bool : Bool → Json
  -- `value[name]`, which is null where there is no such member. The values that the code asks for a
  -- member are objects or null: for others JsonCpp throws.
  pub member : Json → Text → Json
  -- `value[name] = new`
  pub set_member : Json → Text → Json → Json
  -- `value.append(new)`
  pub append : Json → Json → Json
  pub is_null : Json → Bool
  pub is_object : Json → Bool
  pub is_text : Json → Bool
  pub is_array : Json → Bool
  -- `isUInt64`
  pub is_uint : Json → Bool
  pub empty : Json → Bool
  pub as_text : Json → Option Text
  pub as_uint : Json → Option ℕ
  -- `asInt`, without its sign, which no caller tells apart
  pub as_int : Json → Option ℕ
  pub as_bool : Json → Option Bool
  -- What a `for` over the value visits, which is nothing if it is neither an array nor an object.
  pub items : Json → List Json
  -- `StreamWriter::write`, indented or not
  pub write : Bool → Json → Text
  -- `parseFromStream`
  pub parse : Text → Option Json

module _ (lib : JsonLib) where
  open lib use {
    Json, null, of_uint, of_text, of_bool, as_bool, member, set_member, is_null, is_object, as_text,
    as_uint, write, parse,
  }

  -- `Storage::toString`, with the line break that it adds
  unfoldable pub to_string : Json → Bool → Text
  to_string json pretty = write pretty json ++ 10 ∷ []

  -- `Storage::toJson`: an exception gives a null value
  unfoldable pub to_json : Text → Json
  to_json text = elim (parse text) [ some json ↦ json | none ↦ null ]

  -- What the database relies on: a value that was written is read back, and no text is no value.
  pub record RoundTrips : Type 0 where
    pub read_back : (json : Json) → to_json (to_string json false) ≡ json
    pub read_nothing : to_json [] ≡ null

  -- `value[name]`, where the value may be of any kind: JsonCpp throws if it is neither an object nor
  -- null.
  unfoldable pub try_member : Json → Text → Option Json
  try_member json name = if is_object json || is_null json then some (member json name) else none

  -- What JsonCpp documents of objects, texts and numbers.
  pub record HasMembers : Type 0 where
    pub null_is_null : is_null null ≡ true
    pub is_object-set :
        (json value : Json) (name : Text)
        → (is_object json || is_null json) ≡ true
        → is_object (set_member json name value) ≡ true
    pub member-set :
        (json value : Json) (name other : Text)
        → (is_object json || is_null json) ≡ true
        → member (set_member json name value) other
          ≡ (if text_eq name other then value else member json other)
    pub text_of_text : (s : Text) → as_text (of_text s) ≡ some s
    pub uint_of_uint : (n : ℕ) → as_uint (of_uint n) ≡ some n
    pub bool_of_bool : (b : Bool) → as_bool (of_bool b) ≡ some b
