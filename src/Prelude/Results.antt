-- ===== src/Prelude/Results.antt =====
-- Thrown exceptions as values: a call returns a value or the error that it throws.
use mathlib.Core.Path.{◌≡◌, refl}
use mathlib.Core.Logic.{◌⊎◌, inl, inr}

pub data Result {ε ν} (Thrown : Type ε) (Value : Type ν) : Type (ε ⊔ ν) where
  err : Thrown → Result Thrown Value
  ok : Value → Result Thrown Value

infixl 5 ◌>>=◌ ◌>>◌
abbrev pub ◌>>=◌ {ε ν ω} :
    {Thrown : Type ε} {V : Type ν} {W : Type ω}
    → Result Thrown V
    → (V → Result Thrown W)
    → Result Thrown W
err thrown >>= next = err thrown
ok value >>= next = next value

-- A statement whose value is not used.
abbrev pub ◌>>◌ {ε ω} :
    {Thrown : Type ε} {W : Type ω} → Result Thrown (Unit {0}) → Result Thrown W → Result Thrown W
first >> next = first >>= λ _. next

-- Where a sequence returned, its first call did.
pub >>=-eq-ok {ε ν ω} :
    {Thrown : Type ε} {V : Type ν} {W : Type ω} (call : Result Thrown V)
    (next : V → Result Thrown W) {w : W}
    → (call >>= next) ≡ ok w
    → (v : V) × (call ≡ ok v) × (next v ≡ ok w)
>>=-eq-ok (err thrown) next returned = cc
>>=-eq-ok (ok value) next returned = (value, refl, returned)

pub Result-cases {ε ν} :
    {Thrown : Type ε} {V : Type ν} (call : Result Thrown V)
    → ((v : V) × (call ≡ ok v)) ⊎ ((thrown : Thrown) × (call ≡ err thrown))
Result-cases (err thrown) = inr (thrown, refl)
Result-cases (ok value) = inl (value, refl)
