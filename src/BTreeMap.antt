-- ===== src/BTreeMap.antt =====
-- `std::collections::BTreeMap` with `String` keys, as the list of its entries in the order of
-- iteration.
pub mod Laws
use mcloudtt.Prelude.{
  String, ℕ, Option, none, some, List, [], ◌∷◌, Bool, true, false, ◌==◌, if◌then◌else◌,
}
use mcloudtt.Prelude.Order.{str_ltb}

abbrev pub BTreeMap {ℓ} : Type ℓ → Type ℓ
BTreeMap V = List (String × V)

module _ {ℓ} {V : Type ℓ} where
  unfoldable pub get : String → BTreeMap V → Option V
  get k [] = none
  get k ((j, v) ∷ m) = if k == j then some v else get k m

  -- The map after `insert`.
  unfoldable pub insert : String → V → BTreeMap V → BTreeMap V
  insert k v [] = (k, v) ∷ []
  insert k v ((j, w) ∷ m) =
      if k == j
      then (k, v) ∷ m
      else if str_ltb k j
      then (k, v) ∷ (j, w) ∷ m
      else (j, w) ∷ insert k v m

  -- The map after `remove`. Every entry of the key goes; a map with sorted keys has at most one.
  unfoldable pub remove : String → BTreeMap V → BTreeMap V
  remove k [] = []
  remove k ((j, w) ∷ m) = let rest = remove k m in if k == j then rest else (j, w) ∷ rest

  -- The first entry in the order of iteration that passes a test.
  unfoldable pub find : (String × V → Bool) → BTreeMap V → Option (String × V)
  find p [] = none
  find p (e ∷ m) = let rest = find p m in if p e then some e else rest
