-- ===== src/Policy/YamlOutcome.antt =====
-- Postconditions of the parser of packages/policy/src/index.ts, and the rules for its steps.
use ai_software_engineering.Prelude.{
  ◌≡◌, refl, Bool, true, false, Option, none, some, if◌then◌else◌, Result, ok, err, ◌>>=◌, ◌>>◌,
  throw_if, require,
}
use ai_software_engineering.Policy.Data.{PolicyFailure}
use ai_software_engineering.Policy.Yaml.{Stop, thrown, out_of_fuel, lift}

-- A result has the property, or the code throws; `F` is what spent fuel means.
abbrev pub Holds : {A : Type 0} → Type 0 → (A → Type 0) → Result Stop A → Type 0
Holds F P (ok a) = P a
Holds F P (err (thrown e)) = Unit {0}
Holds F P (err out_of_fuel) = F

module _ {A B : Type 0} (F : Type 0) (Q : B → Type 0) where
  pub Holds-bind :
      (P : A → Type 0) (m : Result Stop A) (f : A → Result Stop B)
      → Holds F P m
      → ((a : A) → P a → Holds F Q (f a))
      → Holds F Q (m >>= f)
  Holds-bind P (ok a) f h k = k a h
  Holds-bind P (err (thrown e)) f h k = tt
  Holds-bind P (err out_of_fuel) f h k = h

  pub Holds-lift :
      (m : Result PolicyFailure A) (f : A → Result Stop B)
      → ((a : A) → m ≡ ok a → Holds F Q (f a))
      → Holds F Q (lift m >>= f)
  Holds-lift (ok a) f k = k a refl
  Holds-lift (err e) f k = tt

  pub Holds-require :
      (o : Option A) (e : PolicyFailure) (f : A → Result Stop B)
      → ((a : A) → Holds F Q (f a))
      → Holds F Q (require o (thrown e) >>= f)
  Holds-require (some a) e f k = k a
  Holds-require none e f k = tt

module _ {B : Type 0} (F : Type 0) (Q : B → Type 0) where
  pub Holds-throw_if :
      (t : Bool) (e : PolicyFailure) (m : Result Stop B)
      → (t ≡ false → Holds F Q m)
      → Holds F Q (throw_if t (thrown e) >> m)
  Holds-throw_if true e m k = tt
  Holds-throw_if false e m k = k refl

  pub Holds-if :
      (t : Bool) (r s : Result Stop B) → Holds F Q r → Holds F Q s → Holds F Q (if t then r else s)
  Holds-if true r s h k = h
  Holds-if false r s h k = k

  pub Holds-if_not :
      (t : Bool) (r s : Result Stop B)
      → Holds F Q r
      → (t ≡ false → Holds F Q s)
      → Holds F Q (if t then r else s)
  Holds-if_not true r s h k = h
  Holds-if_not false r s h k = k refl

pub Holds-weaken :
    {A : Type 0} (F : Type 0) (P Q : A → Type 0) (r : Result Stop A)
    → ((a : A) → P a → Q a)
    → Holds F P r
    → Holds F Q r
Holds-weaken F P Q (ok a) k h = k a h
Holds-weaken F P Q (err (thrown e)) k h = tt
Holds-weaken F P Q (err out_of_fuel) k h = h
