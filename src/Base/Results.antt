-- ===== src/Base/Results.antt =====
-- `Result`: a value or an error. `stuck` is no value of the program: a loop has run out of fuel.
use mathlib.Core.Path.{◌≡◌, refl}
use mathlib.Core.Logic.{◌⊎◌, inl, inr}
use mathlib.Core.Option.{Option, none, some}

pub data Result {ℓ κ} (E : Type ℓ) (A : Type κ) : Type (ℓ ⊔ κ) where
  ok : A → Result E A
  err : E → Result E A
  stuck : Result E A

module _ {ℓ} {E : Type ℓ} where
  infixl 5 ◌>>=◌
  abbrev pub ◌>>=◌ {κ μ} : {A : Type κ} {B : Type μ} → Result E A → (A → Result E B) → Result E B
  ok a >>= f = f a
  err e >>= f = err e
  stuck >>= f = stuck

  -- `ok_or` and `map_err`.
  abbrev pub or_err {κ} : {A : Type κ} → E → Option A → Result E A
  or_err e none = err e
  or_err e (some a) = ok a

  pub Result-cases {κ} :
      {A : Type κ} (m : Result E A)
      → ((a : A) × (m ≡ ok a)) ⊎ (((e : E) × (m ≡ err e)) ⊎ (m ≡ stuck))
  Result-cases (ok a) = inl (a, refl)
  Result-cases (err e) = inr (inl (e, refl))
  Result-cases stuck = inr (inr refl)

  pub ok_injective {κ} : {A : Type κ} {a b : A} → ◌≡◌ {A = Result E A} (ok a) (ok b) → a ≡ b
  ok_injective e = cc

  -- Inversion of a chain that succeeds.
  pub >>=-eq-ok {κ μ} :
      {A : Type κ} {B : Type μ} (m : Result E A) (f : A → Result E B) {b : B}
      → (m >>= f) ≡ ok b
      → (a : A) × (m ≡ ok a) × (f a ≡ ok b)
  >>=-eq-ok (ok a) f e = (a, refl, e)
  >>=-eq-ok (err x) f e = cc
  >>=-eq-ok stuck f e = cc

  pub or_err-eq-ok {κ} :
      {A : Type κ} (e : E) (o : Option A) {a : A} → or_err e o ≡ ok a → o ≡ some a
  or_err-eq-ok e none h = cc
  or_err-eq-ok e (some b) h = cc

  -- A chain is stuck where one of its links is.
  pub >>=-eq-stuck {κ μ} :
      {A : Type κ} {B : Type μ} (m : Result E A) (f : A → Result E B)
      → (m >>= f) ≡ stuck
      → (m ≡ stuck) ⊎ ((a : A) × (m ≡ ok a) × (f a ≡ stuck))
  >>=-eq-stuck (ok a) f e = inr (a, refl, e)
  >>=-eq-stuck (err x) f e = absurd (cc)
  >>=-eq-stuck stuck f e = inl refl

  pub or_err->>=-eq-stuck {κ μ} :
      {A : Type κ} {B : Type μ} (e : E) (o : Option A) (f : A → Result E B)
      → (or_err e o >>= f) ≡ stuck
      → (a : A) × (o ≡ some a) × (f a ≡ stuck)
  or_err->>=-eq-stuck e none f h = cc
  or_err->>=-eq-stuck e (some a) f h = (a, refl, h)
