-- ===== src/Base/Results.antt =====
-- Go's pair of a value and an error: `ok` where the error is nil.
use mathlib.Core.Path.{◌≡◌, refl}
use mathlib.Core.Logic.{◌⊎◌, inl, inr}

pub data Result (E A : Type 0) : Type 0 where
  err : E → Result E A
  ok : A → Result E A

-- The rest of a function after a call whose error it returns.
infixl 5 ◌>>=◌
abbrev pub ◌>>=◌ : {E A B : Type 0} (call : Result E A) (next : A → Result E B) → Result E B
err problem >>= next = err problem
ok value >>= next = next value

-- Where the whole succeeds, the call did, and so does the rest on its value.
pub both_succeed :
    {E A B : Type 0} (call : Result E A) (next : A → Result E B) {b : B}
    → (call >>= next) ≡ ok b
    → (value : A) × (next value ≡ ok b) × (call ≡ ok value)
both_succeed (err problem) next h = cc
both_succeed (ok value) next h = (value, h, refl)

pub Result-cases :
    {E A : Type 0} (r : Result E A) → ((e : E) × (r ≡ err e)) ⊎ ((a : A) × (r ≡ ok a))
Result-cases (err e) = inl (e, refl)
Result-cases (ok a) = inr (a, refl)
