-- ===== src/Base/Sets.antt =====
-- `std::unordered_set`: a list that `insert_set` keeps free of repetition.
use Prim.Native.Nat.{◌+◌}
use mathlib.Core.Path.{◌≡◌, refl}
use mathlib.Core.Logic.{inl, inr}
use mathlib.Core.Bool.{Bool, true, false, ◌||◌}
use mathlib.Core.List.{List, [], ◌∷◌}
use native.Mathlib.Omega.{arith}
use maelstromdb.Base.Lists.{length}
use maelstromdb.Base.Tests.{if◌then◌else◌, Eq, ◌==◌, Bool-cases}

module _ {ℓ} {A : Type ℓ} ⦃e : Eq A⦄ where
  unfoldable pub contains : A → List A → Bool
  contains a [] = false
  contains a (x ∷ xs) = x == a || contains a xs

  unfoldable pub insert_set : A → List A → List A
  unfolding contains
  insert_set a xs = if contains a xs then xs else a ∷ xs

  pub contains-insert_set :
      (a b : A) (xs : List A) → contains a (insert_set b xs) ≡ (b == a || contains a xs)
  unfolding insert_set contains
  contains-insert_set a b xs = elim (Bool-cases (contains b xs)) [
    | inl old ↦ rw old (elim (Bool-cases (b == a)) [
      | inl same ↦ ground (arith, (e.beq_iff b a).0 same)
      | inr other ↦ rw other
    ])
    | inr new ↦ rw new
  ]

  abbrev pub IsDistinct : List A → Type 0
  IsDistinct [] = Unit
  IsDistinct (x ∷ xs) = (contains x xs ≡ false) × IsDistinct xs

  pub insert_set-IsDistinct : (a : A) (xs : List A) → IsDistinct xs → IsDistinct (insert_set a xs)
  unfolding insert_set
  insert_set-IsDistinct a xs h = elim (Bool-cases (contains a xs)) [
    | inl old ↦ rw old h
    | inr new ↦ rw new (new, h)
  ]

  unfoldable pub remove : A → List A → List A
  remove a [] = []
  remove a (x ∷ xs) = if x == a then remove a xs else x ∷ remove a xs

  pub contains-remove :
      (b a : A) (xs : List A) → contains b (remove a xs) ≡ (if a == b then false else contains b xs)
  unfolding contains remove
  contains-remove b a [] = ground arith
  contains-remove b a (x ∷ xs) =
      ground (arith, contains-remove b a xs, e.beq_iff x a, e.beq_iff a b, e.beq_iff x b)

  pub remove_absent : (a : A) (xs : List A) → contains a xs ≡ false → remove a xs ≡ xs
  unfolding contains remove
  remove_absent a [] h = refl
  remove_absent a (x ∷ xs) h = ground (arith, remove_absent a xs)

  pub length-remove :
      (a : A) (xs : List A)
      → IsDistinct xs
      → contains a xs ≡ true
      → length (remove a xs) + 1 ≡ length xs
  unfolding contains remove
  length-remove a [] d h = cc
  length-remove a (x ∷ xs) d h =
      ground (arith, length-remove a xs d.1, remove_absent a xs, e.beq_iff x a)

  pub remove-IsDistinct : (a : A) (xs : List A) → IsDistinct xs → IsDistinct (remove a xs)
  unfolding remove
  remove-IsDistinct a [] d = tt
  remove-IsDistinct a (x ∷ xs) d =
      ground (arith, remove-IsDistinct a xs d.1, contains-remove x a xs)
