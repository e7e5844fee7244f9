-- ===== src/Base/Result.antt =====
-- Outcomes of C++ code: a value, a thrown exception, or undefined behaviour.
use mathlib.Core.Path.{◌≡◌, refl}

pub data Error : Type 0 where
  -- `std::out_of_range`
  out_of_range : Error
  -- `std::runtime_error`
  runtime_error : Error
  -- `std::system_error`
  system_error : Error
  -- `std::bad_weak_ptr`
  bad_weak_ptr : Error

pub data Result {ℓ} (X : Type ℓ) : Type ℓ where
  -- an access outside a container, or through an end iterator
  undefined : Result X
  throw : Error → Result X
  ok : X → Result X

infixl 5 ◌>>=◌
abbrev pub ◌>>=◌ {ℓ κ} : {X : Type ℓ} {Y : Type κ} → Result X → (X → Result Y) → Result Y
undefined >>= next = undefined
throw error >>= next = throw error
ok value >>= next = next value

-- A sequence that succeeds has a first part that does.
pub >>=_inversion {ℓ κ} :
    {X : Type ℓ} {Y : Type κ} (first : Result X) (next : X → Result Y) (y : Y)
    → (first >>= next) ≡ ok y
    → (x : X) × (first ≡ ok x) × (next x ≡ ok y)
>>=_inversion undefined next y h = cc
>>=_inversion (throw error) next y h = cc
>>=_inversion (ok x) next y h = (x, refl, h)

pub ok-injective {ℓ} : {X : Type ℓ} {x y : X} → ok x ≡ ok y → x ≡ y
ok-injective h = cc
