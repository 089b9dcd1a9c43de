-- ===== src/StdMap.antt =====
-- `std::map<std::string, V>`, as the server's sources use it: the pairs in the order of their
-- keys. `std::unordered_map` is modelled by it too, since its iteration order is never observed.
pub mod Laws
pub mod Writes
use web_server_development.Prelude.{
  Bool, true, false, List, [], ◌∷◌, Option, none, some, if◌then◌else◌,
}
use web_server_development.Text.{Bytes, equal, less}

abbrev pub StdMap {ℓ} : Type ℓ → Type ℓ
StdMap V = List (Bytes × V)

module _ {ℓ} {V : Type ℓ} where
  -- `m.find(k)`
  unfoldable pub find : Bytes → StdMap V → Option V
  find k [] = none
  find k ((j, v) ∷ m) = if equal j k then some v else find k m

  -- `m[k] = v`
  unfoldable pub assign : Bytes → V → StdMap V → StdMap V
  assign k v [] = (k, v) ∷ []
  assign k v ((j, w) ∷ m) =
      if equal j k
      then (k, v) ∷ m
      else if less k j
      then (k, v) ∷ (j, w) ∷ m
      else (j, w) ∷ assign k v m

  -- `m.insert({k, v})`: a key that is present keeps its value.
  unfoldable pub insert : Bytes → V → StdMap V → StdMap V
  insert k v [] = (k, v) ∷ []
  insert k v ((j, w) ∷ m) =
      if equal j k
      then (j, w) ∷ m
      else if less k j
      then (k, v) ∷ (j, w) ∷ m
      else (j, w) ∷ insert k v m

  -- `m.erase(k)`
  unfoldable pub erase : Bytes → StdMap V → StdMap V
  erase k [] = []
  erase k ((j, w) ∷ m) = if equal j k then m else (j, w) ∷ erase k m

  -- `m.empty()`
  abbrev pub is_empty_map : StdMap V → Bool
  is_empty_map [] = true
  is_empty_map (x ∷ m) = false
