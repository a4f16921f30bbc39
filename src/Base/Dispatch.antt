-- ===== src/Base/Dispatch.antt =====
-- Dispatch results of the runtime. An `err` carries no state: a call that fails is rolled back by
-- the storage transaction that wraps each call.
use mathlib.Core.Path.{◌≡◌, refl}
use mathlib.Core.Bool.{Bool, true, false}
use mathlib.Core.Logic.{◌⊎◌, inl, inr}
use mathlib.Core.Option.{Option, none, some}

pub data Result (E A : Type 0) : Type 0 where
  err : E → Result E A
  ok : A → Result E A

-- `ensure!(test, error)`
abbrev pub ensure : {E : Type 0} → Bool → E → Result E (Unit {0})
ensure false error = err error
ensure true error = ok tt

-- `option.ok_or(error)?`
abbrev pub ok_or : {E A : Type 0} → Option A → E → Result E A
ok_or (some a) e = ok a
ok_or none e = err e

-- The state after a call: the new one, or the old one when the call fails.
abbrev pub commit : {E S : Type 0} → S → Result E S → S
commit s (ok t) = t
commit s (err e) = s

-- A call goes on with the value of the one before it, or stops with its error.
infixl 5 ◌>>=◌ ◌>>◌
abbrev pub ◌>>=◌ : {E A B : Type 0} → Result E A → (A → Result E B) → Result E B
err error >>= next = err error
ok value >>= next = next value

abbrev pub ◌>>◌ : {E B : Type 0} → Result E (Unit {0}) → Result E B → Result E B
check >> next = check >>= λ _. next

pub Result-cases :
    {E A : Type 0} (r : Result E A) → ((e : E) × (r ≡ err e)) ⊎ ((a : A) × (r ≡ ok a))
Result-cases (err e) = inl (e, refl)
Result-cases (ok a) = inr (a, refl)

pub err-ok : {E A : Type 0} {e : E} {a : A} → err e ≡ ok a → ⊥
err-ok h = cc

pub ok_same : {E A : Type 0} {r : Result E A} {a b : A} → r ≡ ok a → r ≡ ok b → a ≡ b
ok_same h k = cc
