-- ===== src/Prelude/Raise.antt =====
-- A call that may raise: `ok` is the returned value, `err` the exception.
use mathlib.Core.Path.{◌≡◌, refl}
use mathlib.Core.Bool.{Bool, true, false}

pub data Result (E A : Type 0) : Type 0 where
  err : E → Result E A
  ok : A → Result E A

-- `if condition: raise error`
abbrev pub raise_if : {E : Type 0} → Bool → E → Result E (Unit {0})
raise_if false error = ok tt
raise_if true error = err error

infixl 5 ◌>>=◌
infixl 5 ◌>>◌
-- the calls of a method in sequence: the first that raises ends it
abbrev pub ◌>>=◌ : {E A B : Type 0} → Result E A → (A → Result E B) → Result E B
err error >>= rest = err error
ok value >>= rest = rest value

-- the same after a guard
abbrev pub ◌>>◌ : {E B : Type 0} → Result E (Unit {0}) → Result E B → Result E B
err error >> rest = err error
ok passed >> rest = rest

-- What a sequence that returns has computed on the way.
pub >>=-eq-ok :
    {E A B : Type 0} (first : Result E A) (rest : A → Result E B) {result : B}
    → first >>= rest ≡ ok result
    → (value : A) × (first ≡ ok value) × (rest value ≡ ok result)
>>=-eq-ok (err error) rest returned = absurd (cc returned)
>>=-eq-ok (ok value) rest returned = (value, refl, returned)

-- A guard that was passed did not hold.
pub raise_if-ok :
    {E B : Type 0} (c : Bool) (e : E) (m : Result E B) {b : B}
    → (raise_if c e >> m) ≡ ok b
    → (c ≡ false) × (m ≡ ok b)
raise_if-ok true e m h = cc
raise_if-ok false e m h = (refl, h)

-- A guard that returns before a call that returns.
pub guard-ok :
    {E A : Type 0} (first : Result E (Unit {0})) (rest : Result E A) {result : A}
    → (first >> rest) ≡ ok result
    → (first ≡ ok tt) × (rest ≡ ok result)
guard-ok (err e) rest k = absurd (cc k)
guard-ok (ok passed) rest k = (refl, k)
