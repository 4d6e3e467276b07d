-- ===== src/Prelude/Throwing.antt =====
-- A computation that returns or throws, with its bind.
use mathlib.Core.Path.{◌≡◌, refl}
use mathlib.Core.Logic.{◌⊎◌, inl, inr}
use mathlib.Core.Bool.{Bool, true, false}

pub data Outcome {ℓ} (E A : Type ℓ) : Type ℓ where
  ok : A → Outcome E A
  throws : E → Outcome E A

infixl 5 ◌>>=◌ ◌>>◌
abbrev pub ◌>>=◌ {ℓ} : {E A B : Type ℓ} → Outcome E A → (A → Outcome E B) → Outcome E B
throws thrown >>= next = throws thrown
ok value >>= next = next value

abbrev pub ◌>>◌ : {E B : Type 0} → Outcome E (Unit {0}) → Outcome E B → Outcome E B
check >> next = check >>= λ _. next

-- `if (test) throw error;`
abbrev pub throw_if : {E : Type 0} → Bool → E → Outcome E (Unit {0})
throw_if false thrown = ok tt
throw_if true thrown = throws thrown

pub Outcome-cases {ℓ} :
    {E A : Type ℓ} (r : Outcome E A) → ((a : A) × (r ≡ ok a)) ⊎ ((e : E) × (r ≡ throws e))
Outcome-cases (ok a) = inl (a, refl)
Outcome-cases (throws e) = inr (e, refl)

-- A chain that returns has steps that return.
pub >>=-eq-ok {ℓ} :
    {E A B : Type ℓ} (step : Outcome E A) (next : A → Outcome E B) {out : B}
    → (step >>= next) ≡ ok out
    → (value : A) × (step ≡ ok value) × (next value ≡ ok out)
>>=-eq-ok (throws thrown) next returns = cc
>>=-eq-ok (ok value) next returns = (value, refl, returns)

pub throw_if-eq-ok :
    {E B : Type 0} (t : Bool) (e : E) (f : Unit {0} → Outcome E B) {b : B}
    → (throw_if t e >>= f) ≡ ok b
    → (t ≡ false) × (f tt ≡ ok b)
throw_if-eq-ok true e f h = cc
throw_if-eq-ok false e f h = (refl, h)
