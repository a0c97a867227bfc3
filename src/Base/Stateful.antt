-- ===== src/Base/Stateful.antt =====
-- Methods that change an object and may raise. The object comes back beside an exception too, as
-- the method left it.
use flock_os.Base.Fallible.{Result, ok, err}

abbrev pub Method {ℓ κ μ} : Type ℓ → Type κ → Type μ → Type (ℓ ⊔ κ ⊔ μ)
Method S E A = S → Result E A × S

module _ {ℓ κ μ} {S : Type ℓ} {E : Type κ} {A : Type μ} where
  abbrev pub return : A → Method S E A
  return a s = (ok a, s)

  abbrev pub raise : E → Method S E A
  raise e s = (err e, s)

  -- A pure computation that may raise.
  abbrev pub lift : Result E A → Method S E A
  lift r s = (r, s)

  abbrev pub gets : (S → A) → Method S E A
  gets f s = (ok (f s), s)

  -- A change of the object that yields a value.
  abbrev pub update : (S → A × S) → Method S E A
  update f s = let (a, s') = f s in (ok a, s')

module _ {ℓ κ μ ν} {S : Type ℓ} {E : Type κ} {A : Type μ} {B : Type ν} where
  abbrev pub go_on : Result E A × S → (A → Method S E B) → Result E B × S
  go_on (ok a, s) f = f a s
  go_on (err e, s) f = (err e, s)

  infixl 5 ◌>>=◌ ◌>>◌
  abbrev pub ◌>>=◌ : Method S E A → (A → Method S E B) → Method S E B
  ◌>>=◌ m f s = go_on (m s) f

  abbrev pub ◌>>◌ : Method S E A → Method S E B → Method S E B
  m >> n = m >>= λ _. n
