-- ===== src/Prelude/Results.antt =====
-- Errors as values: what a Python call returns, or the exception that it raises.
use mathlib.Core.Path.{◌≡◌, refl, subst, ap}
use mathlib.Core.Logic.{◌⊎◌, inl, inr}
use mathlib.Core.Bool.{Bool, true, false}
use mathlib.Core.Option.{Option, none, some}

pub data Result {ℓ κ} (E : Type ℓ) (A : Type κ) : Type (ℓ ⊔ κ) where
  ok : A → Result E A
  err : E → Result E A

infixl 5 ◌>>=◌ ◌>>◌
abbrev pub ◌>>=◌ {ℓ κ μ} :
    {E : Type ℓ} {A : Type κ} {B : Type μ} → Result E A → (A → Result E B) → Result E B
ok a >>= f = f a
err e >>= f = err e

abbrev pub ◌>>◌ {ℓ κ} : {E : Type ℓ} {B : Type κ} → Result E (Unit {0}) → Result E B → Result E B
m >> k = m >>= λ _. k

-- `if c: raise e`
abbrev pub raise_if {ℓ} : {E : Type ℓ} → Bool → E → Result E (Unit {0})
raise_if true e = err e
raise_if false e = ok tt

-- `if x is None: raise e`
abbrev pub or_raise {ℓ κ} : {E : Type ℓ} {A : Type κ} → Option A → E → Result E A
or_raise none e = err e
or_raise (some a) e = ok a

-- What is said of the value, if the call returns.
abbrev pub OnOk {ℓ κ μ} : {E : Type ℓ} {A : Type κ} → (A → Type μ) → Result E A → Type μ
OnOk P (ok a) = P a
OnOk P (err e) = Unit

-- The call returns, and what is said holds of its value.
abbrev pub Yields {ℓ κ μ} : {E : Type ℓ} {A : Type κ} → (A → Type μ) → Result E A → Type (ℓ ⊔ κ ⊔ μ)
Yields {A = A} P r = (a : A) × (r ≡ ok a) × P a

pub OnOk-eq {ℓ κ μ} :
    {E : Type ℓ} {A : Type κ} (P : A → Type μ) (r : Result E A) {a : A} → OnOk P r → r ≡ ok a → P a
OnOk-eq {E = E} {A = A} P (ok b) {a} h e = subst P (ap (λ r. from b r) e) h
  where
    from : A → Result E A → A
    from d (ok x) = x
    from d (err _) = d
OnOk-eq P (err b) h e = cc

pub OnOk-bind {ℓ κ μ} :
    {E : Type ℓ} {A B : Type κ} (P : B → Type μ) (m : Result E A) (f : A → Result E B)
    → ((a : A) → m ≡ ok a → OnOk P (f a))
    → OnOk P (m >>= f)
OnOk-bind P (ok a) f h = h a refl
OnOk-bind P (err e) f h = tt

pub Result-cases {ℓ κ} :
    {E : Type ℓ} {A : Type κ} (r : Result E A) → ((a : A) × (r ≡ ok a)) ⊎ ((e : E) × (r ≡ err e))
Result-cases (ok a) = inl (a, refl)
Result-cases (err e) = inr (e, refl)

pub raise_if_ok {ℓ} :
    {E : Type ℓ} (b : Bool) (e : E) {u : Unit {0}} → raise_if b e ≡ ok u → b ≡ false
raise_if_ok true e h = cc
raise_if_ok false e h = refl

pub OnOk-intro {ℓ κ μ} :
    {E : Type ℓ} {A : Type κ} (P : A → Type μ) (m : Result E A)
    → ((a : A) → m ≡ ok a → P a)
    → OnOk P m
OnOk-intro P (ok a) h = h a refl
OnOk-intro P (err e) h = tt

-- what is found, if the call returns
pub or_raise-some {ℓ κ} :
    {E : Type ℓ} {A : Type κ} (o : Option A) (e : E) {a : A} → or_raise o e ≡ ok a → o ≡ some a
or_raise-some none e h = cc
or_raise-some (some b) e h = cc

pub OnOk-mono {ℓ κ μ ν} :
    {E : Type ℓ} {A : Type κ} (P : A → Type μ) (Q : A → Type ν) (r : Result E A)
    → ((a : A) → P a → Q a)
    → OnOk P r
    → OnOk Q r
OnOk-mono P Q (ok a) f h = f a h
OnOk-mono P Q (err e) f h = tt

-- What is said of the error, if the call raises one.
abbrev pub OnErr {ℓ κ μ} : {E : Type ℓ} {A : Type κ} → (E → Type μ) → Result E A → Type μ
OnErr P (ok a) = Unit
OnErr P (err e) = P e

pub OnErr-bind {ℓ κ μ} :
    {E : Type ℓ} {A B : Type κ} (P : E → Type μ) (m : Result E A) (f : A → Result E B)
    → OnErr P m
    → ((a : A) → m ≡ ok a → OnErr P (f a))
    → OnErr P (m >>= f)
OnErr-bind P (ok a) f h k = k a refl
OnErr-bind P (err e) f h k = h

pub OnErr-raise_if {ℓ μ} :
    {E : Type ℓ} (P : E → Type μ) (b : Bool) (e : E) → P e → OnErr P (raise_if b e)
OnErr-raise_if P true e h = h
OnErr-raise_if P false e h = tt

pub OnErr-eq {ℓ κ μ} :
    {E : Type ℓ} {A : Type κ} (P : E → Type μ) (r : Result E A) {e : E}
    → OnErr P r
    → r ≡ err e
    → P e
OnErr-eq P (ok a) h e = cc
OnErr-eq {E = E} {A = A} P (err b) h e = subst P (ap (λ r. from b r) e) h
  where
    from : E → Result E A → E
    from d (ok _) = d
    from d (err x) = x
