-- ===== src/KeyMap.antt =====
-- Maps keyed by byte strings, as LevelDB and `std::map<std::string, T>` offer them: only what a
-- lookup returns matters, so an association list in any order stands for the map.
use crypto_kernel.Prelude.{
  ◌≡◌, refl, Bool, true, false, ◌&&◌, Option, none, some, List, [], ◌∷◌, ◌==◌, if◌then◌else◌, arith,
}
use crypto_kernel.BigNum.{Text}

unfoldable pub text_eq : Text → Text → Bool
text_eq [] [] = true
text_eq (a ∷ s) (b ∷ t) = a == b && text_eq s t
text_eq _ _ = false

pub text_eq→eq : (s t : Text) → text_eq s t ≡ true → s ≡ t
unfolding text_eq
text_eq→eq [] [] h = refl
text_eq→eq [] (b ∷ t) h = absurd (ground arith)
text_eq→eq (a ∷ s) [] h = absurd (ground arith)
text_eq→eq (a ∷ s) (b ∷ t) h = ground (arith, text_eq→eq s t)

pub text_eq_refl : (s : Text) → text_eq s s ≡ true
unfolding text_eq
text_eq_refl [] = refl
text_eq_refl (a ∷ s) = ground (arith, text_eq_refl s)

abbrev pub KeyMap : Type 0 → Type 0
KeyMap V = List (Text × V)

module _ {V : Type 0} where
  abbrev pub lookup : Text → KeyMap V → Option V
  lookup k [] = none
  lookup k ((j, v) ∷ m) = if text_eq k j then some v else lookup k m

  -- `map[k] = v`, and `WriteBatch::Put`
  unfoldable pub assign : Text → V → KeyMap V → KeyMap V
  assign k v [] = (k, v) ∷ []
  assign k v (e ∷ m) = if text_eq k e.0 then (k, v) ∷ m else e ∷ assign k v m

  -- `WriteBatch::Delete`
  unfoldable pub erase : Text → KeyMap V → KeyMap V
  erase k [] = []
  erase k (e ∷ m) = let rest = erase k m in if text_eq k e.0 then rest else e ∷ rest

  pub lookup-assign :
      (j k : Text) (v : V) (m : KeyMap V)
      → lookup j (assign k v m) ≡ (if text_eq j k then some v else lookup j m)
  unfolding assign
  lookup-assign j k v [] = refl
  lookup-assign j k v (e ∷ m) = ground (
    arith,
    lookup-assign j k v m,
    text_eq→eq k e.0,
    text_eq→eq j e.0,
    text_eq→eq j k,
    text_eq_refl k,
  )

  pub lookup-erase :
      (j k : Text) (m : KeyMap V)
      → lookup j (erase k m) ≡ (if text_eq j k then none else lookup j m)
  unfolding erase
  lookup-erase j k [] = ground arith
  lookup-erase j k (e ∷ m) = ground (
    arith,
    lookup-erase j k m,
    text_eq→eq k e.0,
    text_eq→eq j e.0,
    text_eq→eq j k,
    text_eq_refl k,
    text_eq_refl j,
  )

-- No key stands twice, as in a `std::map`.
abbrev pub IsMap : {V : Type 0} → KeyMap V → Type 0
IsMap [] = Unit
IsMap (e ∷ m) = (lookup e.0 m ≡ none) × IsMap m

pub assign-IsMap : {V : Type 0} (k : Text) (v : V) (m : KeyMap V) → IsMap m → IsMap (assign k v m)
unfolding assign
assign-IsMap k v [] h = (refl, tt)
assign-IsMap k v (e ∷ m) h = ground (
  arith,
  assign-IsMap k v m h.1,
  lookup-assign e.0 k v m,
  text_eq→eq k e.0,
  text_eq→eq e.0 k,
  text_eq_refl k,
)
