-- ===== src/Base/SortedMap.antt =====
-- `std::map`, kept with the greatest key first: `rbegin()` is the head of the list.
use mathlib.Core.Bool.{Bool}
use mathlib.Core.List.{List, [], ◌∷◌}
use mathlib.Core.Option.{Option, none, some}
use maelstromdb.Base.Tests.{if◌then◌else◌, Eq, ◌==◌}

module _ {ℓ κ} {K : Type ℓ} {V : Type κ} ⦃e : Eq K⦄ (lt : K → K → Bool) where
  -- `m.insert({k, v})`: no effect where the key is there already.
  unfoldable pub insert : K → V → List (K × V) → List (K × V)
  insert k v [] = (k, v) ∷ []
  insert k v ((j, w) ∷ m) =
      if lt j k then (k, v) ∷ (j, w) ∷ m else (if j == k then (j, w) ∷ m else (j, w) ∷ insert k v m)

  -- `m.erase(m.upper_bound(k), m.end())`
  unfoldable pub erase_above : K → List (K × V) → List (K × V)
  erase_above k [] = []
  erase_above k ((j, w) ∷ m) = let rest = erase_above k m in if lt k j then rest else (j, w) ∷ m

  -- `auto it = m.upper_bound(k); it--;` `none` where that leaves the map.
  unfoldable pub last_at_most : K → List (K × V) → Option (K × V)
  last_at_most k [] = none
  last_at_most k ((j, w) ∷ m) = let rest = last_at_most k m in if lt k j then rest else some (j, w)
