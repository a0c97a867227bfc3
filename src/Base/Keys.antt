-- ===== src/Base/Keys.antt =====
-- Keys: a type with a Boolean equality that decides `≡`, membership in a list of keys, and lists
-- with no key twice. Python's `==` on texts and on tuples, `in`, and sets.
use Prim.Native.Nat.{ℕ}
use Prim.Native.String.{String}
use text.Mathlib.Text.{◌==◌ as str_eq}
use text.Mathlib.TextEquality.{eq_iff}
use mathlib.Core.Path.{◌≡◌, refl}
use mathlib.Core.Logic.{◌↔◌, ◌≢◌, inl, inr}
use mathlib.Core.Bool.{Bool, true, false, ◌&&◌, ◌||◌}
use mathlib.Core.Option.{Option, none, some}
use mathlib.Core.List.{List, [], ◌∷◌, ◌++◌}
use native.Mathlib.Omega.{arith}
use flock_os.Base.Tests.{Bool-cases, nat_beq, if◌then◌else◌}

pub record Eq {ℓ} (A : Type ℓ) : Type ℓ where
  pub test : A → A → Bool
  pub test_iff : (a b : A) → (test a b ≡ true) ↔ (a ≡ b)

pub nat_beq_iff : (a b : ℕ) → (nat_beq a b ≡ true) ↔ (a ≡ b)
nat_beq_iff a b = ground arith

instance abbrev pub nat_eq : Eq ℕ
nat_eq = record { test = nat_beq; test_iff = nat_beq_iff }

-- Python's `==`.
infix 50 ◌==◌
abbrev pub ◌==◌ {ℓ} : {A : Type ℓ} ⦃e : Eq A⦄ → A → A → Bool
◌==◌ ⦃e⦄ = e.test

instance abbrev pub string_eq : Eq String
string_eq = record { test = str_eq; test_iff = eq_iff }

module _ {ℓ} {A : Type ℓ} ⦃e : Eq A⦄ where
  pub eq_iff_lem : (a b : A) → ((a == b) ≡ true) ↔ (a ≡ b)
  eq_iff_lem a b = e.test_iff a b

  pub beq_self : (a : A) → (a == a) ≡ true
  beq_self a = (e.test_iff a a).1 refl

  pub eq_of_beq : {a b : A} → (a == b) ≡ true → a ≡ b
  eq_of_beq {a} {b} h = (e.test_iff a b).0 h

  pub beq-false : {a b : A} → a ≢ b → (a == b) ≡ false
  beq-false {a} {b} h = ground (arith, e.test_iff a b, h)

  -- `a in xs`
  abbrev pub contains : List A → A → Bool
  contains [] a = false
  contains (x ∷ xs) a = x == a || contains xs a

  pub contains-append :
      (xs ys : List A) (a : A) → contains (xs ++ ys) a ≡ (contains xs a || contains ys a)
  contains-append [] ys a = refl
  contains-append (x ∷ xs) ys a = ground (arith, contains-append xs ys a)

  -- No key twice.
  abbrev pub IsDistinct : List A → Type 0
  IsDistinct [] = Unit
  IsDistinct (x ∷ xs) = (contains xs x ≡ false) × IsDistinct xs

  pub IsDistinct-snoc :
      (xs : List A) (a : A) → IsDistinct xs → contains xs a ≡ false → IsDistinct (xs ++ a ∷ [])
  IsDistinct-snoc [] a d h = (refl, tt)
  IsDistinct-snoc (x ∷ xs) a d h = (
    ground (arith, d.0, contains-append xs (a ∷ []) x, e.test_iff a x, e.test_iff x a),
    IsDistinct-snoc xs a d.1 (ground arith),
  )

  -- Adds to a set that is kept in order of insertion.
  abbrev pub add : List A → A → List A
  add xs a = if contains xs a then xs else xs ++ a ∷ []

module _ {ℓ} {A : Type ℓ} ⦃e : Eq A⦄ where
  abbrev pub option_beq : Option A → Option A → Bool
  option_beq none none = true
  option_beq (some a) (some b) = a == b
  option_beq _ _ = false

  pub option_beq_iff : (a b : Option A) → (option_beq a b ≡ true) ↔ (a ≡ b)
  option_beq_iff none none = ground arith
  option_beq_iff none (some b) = ground arith
  option_beq_iff (some a) none = ground arith
  option_beq_iff (some a) (some b) = ground (arith, e.test_iff a b)

  instance abbrev pub option_eq : Eq (Option A)
  option_eq = record { test = option_beq; test_iff = option_beq_iff }

module _ {ℓ κ} {A : Type ℓ} {B : Type κ} ⦃d : Eq A⦄ ⦃e : Eq B⦄ where
  abbrev pub pair_beq : A × B → A × B → Bool
  pair_beq p q = p.0 == q.0 && p.1 == q.1

  pub pair_beq_iff : (p q : A × B) → (pair_beq p q ≡ true) ↔ (p ≡ q)
  pair_beq_iff p q = ground (arith, d.test_iff p.0 q.0, e.test_iff p.1 q.1)

  instance abbrev pub pair_eq : Eq (A × B)
  pair_eq = record { test = pair_beq; test_iff = pair_beq_iff }

module _ {ℓ κ μ} {A : Type ℓ} {B : Type κ} {C : Type μ} ⦃d : Eq A⦄ ⦃e : Eq B⦄ ⦃f : Eq C⦄ where
  abbrev pub triple_beq : A × B × C → A × B × C → Bool
  triple_beq p q = p.0 == q.0 && (p.1 == q.1 && p.2 == q.2)

  pub triple_beq_iff : (p q : A × B × C) → (triple_beq p q ≡ true) ↔ (p ≡ q)
  triple_beq_iff p q = ground (arith, d.test_iff p.0 q.0, e.test_iff p.1 q.1, f.test_iff p.2 q.2)

  instance abbrev pub triple_eq : Eq (A × B × C)
  triple_eq = record { test = triple_beq; test_iff = triple_beq_iff }

-- `o or d` for an optional text: `None` and the empty text give way to `d`.
abbrev pub or_text : Option String → String → String
or_text none d = d
or_text (some s) d = if s == "" then d else s

-- `bool(o)` for an optional text.
abbrev pub truthy : Option String → Bool
truthy none = false
truthy (some s) = if s == "" then false else true

pub conj : (a b : Bool) → (a && b) ≡ true → (a ≡ true) × (b ≡ true)
conj a b h = (ground (arith, h), ground (arith, h))

-- The text that an optional text with content holds.
pub content :
    (o : Option String)
    → truthy o ≡ true
    → (s : String) × (o ≡ some s) × ((s == "") ≡ false) × (or_text o "" ≡ s)
content none h = let e : ⊥ = ground (arith, h) in absurd e
content (some s) h = elim (Bool-cases (s == "")) [
  | inl blank ↦ let e : ⊥ = ground (arith, h, blank) in absurd e
  | inr given ↦ (s, refl, given, ground (arith, given))
]
