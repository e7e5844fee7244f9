-- ===== src/Config/History.antt =====
-- The configurations by log index: the map under `insert` and `erase`.
use maelstromdb.Base.{
  ℤ, ◌≡◌, refl, List, [], ◌∷◌, none, some, ltb_ℤ, ◌<ℤ◌, ◌≤ℤ◌, if◌then◌else◌, arith, find, ◌==◌, inl,
  inr, Bool-cases, int_eq, eqb_ℤ-sound,
}
use mathlib.Core.Option.{get_or}
use maelstromdb.Base.SortedMap
use maelstromdb.Protos.{Configuration}

abbrev pub History : Type 0
History = List (ℤ × Configuration)

-- All keys lie below `k`.
abbrev pub Below : ℤ → History → Type 0
Below k [] = Unit
Below k ((j, _) ∷ m) = (j <ℤ k) × Below k m

-- The greatest key first, and no key twice.
abbrev pub IsDescending : History → Type 0
IsDescending [] = Unit
IsDescending ((j, _) ∷ m) = Below j m × IsDescending m

-- All keys lie above `k`.
abbrev pub Above : ℤ → History → Type 0
Above k [] = Unit
Above k ((j, _) ∷ m) = (k <ℤ j) × Above k m

Below-mono : (a b : ℤ) (m : History) → Below a m → a ≤ℤ b → Below b m
Below-mono a b [] h le = tt
Below-mono a b ((j, w) ∷ m) h le = (omega arith, Below-mono a b m h.1 le)

find-Below : (b r : ℤ) (v : Configuration) (m : History) → Below b m → find r m ≡ some v → r <ℤ b
unfolding find
find-Below b r v [] h e = cc
find-Below b r v ((j, w) ∷ m) h e = ground (arith, find-Below b r v m h.1)

-- Where the index is no key, nothing is found.
pub find_absent : (b r : ℤ) (m : History) → Below b m → b ≤ℤ r → find r m ≡ none
unfolding find
find_absent b r [] h le = refl
find_absent b r ((j, w) ∷ m) h le = ground (arith, find_absent b r m h.1)

module _ (k : ℤ) (v : Configuration) where
  insert-Below : (b : ℤ) (m : History) → Below b m → k <ℤ b → Below b (SortedMap.insert ltb_ℤ k v m)
  unfolding SortedMap.insert
  insert-Below b [] h lt = ground arith
  insert-Below b ((j, w) ∷ m) h lt = ground (arith, insert-Below b m h.1)

  pub insert-IsDescending :
      (m : History) → IsDescending m → IsDescending (SortedMap.insert ltb_ℤ k v m)
  unfolding SortedMap.insert
  insert-IsDescending [] h = ground arith
  insert-IsDescending ((j, w) ∷ m) h =
      ground (arith, insert-IsDescending m h.1, insert-Below j m h.0, Below-mono j k m h.0)

  -- `std::map::insert` keeps the value that is there.
  pub find-insert :
      (j : ℤ) (m : History)
      → IsDescending m
      → find j (SortedMap.insert ltb_ℤ k v m)
        ≡ (if k == j then some (get_or (find k m) v) else find j m)
  unfolding SortedMap.insert find
  find-insert j [] h = ground arith
  find-insert j ((i, w) ∷ m) h = ground (arith, find-insert j m h.1, find_absent i k m h.0)

module _ (r : ℤ) where
  pub erase_above-Below :
      (b : ℤ) (m : History) → Below b m → Below b (SortedMap.erase_above ltb_ℤ r m)
  unfolding SortedMap.erase_above
  erase_above-Below b [] h = tt
  erase_above-Below b ((j, w) ∷ m) h = ground (arith, erase_above-Below b m h.1)

  pub erase_above-IsDescending :
      (m : History) → IsDescending m → IsDescending (SortedMap.erase_above ltb_ℤ r m)
  unfolding SortedMap.erase_above
  erase_above-IsDescending [] h = tt
  erase_above-IsDescending ((j, w) ∷ m) h = ground (arith, erase_above-IsDescending m h.1)

  pub find-erase_above :
      (j : ℤ) (m : History)
      → IsDescending m
      → find j (SortedMap.erase_above ltb_ℤ r m) ≡ (if ltb_ℤ r j then none else find j m)
  unfolding SortedMap.erase_above find
  find-erase_above j [] h = ground arith
  find-erase_above j ((i, w) ∷ m) h =
      ground (arith, find-erase_above j m h.1, find_absent i j m h.0)

  pub erase_above_head :
      (v : Configuration) (m : History)
      → IsDescending m
      → find r m ≡ some v
      → (rest : History) × (SortedMap.erase_above ltb_ℤ r m ≡ (r, v) ∷ rest)
  unfolding SortedMap.erase_above find
  erase_above_head v [] h e = cc
  erase_above_head v ((j, w) ∷ m) h e = elim (Bool-cases (ltb_ℤ r j)) [
    | inl above ↦ let (rest, same) = erase_above_head v m h.1 (ground arith) in (rest, ground arith)
    | inr kept ↦ (m, ground (arith, find-Below j r v m h.0, eqb_ℤ-sound j r))
  ]
