-- ===== src/Permissions/Checks.antt =====
-- What a row of tests says, and the entries of a list that pass one.
use flock_os.Permissions.{PermissionError, GroupBounds}
use flock_os.Base.{
  ℕ, zero, suc, ◌≡◌, refl, string_eq, option_eq, Bool, Bool-cases, true, false, ◌⊎◌, inl, inr, List,
  [], ◌∷◌, some, Result, ok, err, any, get_elem?, if◌then◌else◌, arith,
}

module _ (p : GroupBounds → Bool) where
  -- The position of an entry that passes a test.
  pub found :
      (xs : List GroupBounds)
      → any p xs ≡ true
      → (i : ℕ) × (x : GroupBounds) × (get_elem? xs i ≡ some x) × (p x ≡ true)
  found [] h = let e : ⊥ = ground (arith, h) in absurd e
  found (x ∷ xs) h = elim (Bool-cases (p x)) [
    | inl here ↦ (0, x, refl, here)
    | inr other ↦
        let (i, y, at, passes) = found xs (ground (arith, h, other)) in (suc i, y, at, passes)
  ]

  pub any-found :
      (xs : List GroupBounds) (i : ℕ) (x : GroupBounds)
      → get_elem? xs i ≡ some x
      → p x ≡ true
      → any p xs ≡ true
  any-found [] i x at passes = let e : ⊥ = ground (arith, at) in absurd e
  any-found (y ∷ xs) zero x at passes = ground (arith, at, passes)
  any-found (y ∷ xs) (suc i) x at passes = ground (arith, any-found xs i x at passes)

pub four_tests :
    (a b c d : Bool) (e : PermissionError)
    → ◌≡◌ {A = Result PermissionError (Unit {0})}
        (if a then ok tt else if b then ok tt else if c then ok tt else if d then ok tt else err e)
        (ok tt)
    → (a ≡ true) ⊎ ((b ≡ true) ⊎ ((c ≡ true) ⊎ (d ≡ true)))
four_tests true b c d e h = inl refl
four_tests false true c d e h = inr (inl refl)
four_tests false false true d e h = inr (inr (inl refl))
four_tests false false false true e h = inr (inr (inr refl))
four_tests false false false false e h = cc

pub pass_one :
    (a b c d : Bool) (e : PermissionError)
    → (a ≡ true) ⊎ ((b ≡ true) ⊎ ((c ≡ true) ⊎ (d ≡ true)))
    → ◌≡◌ {A = Result PermissionError (Unit {0})}
        (if a then ok tt else if b then ok tt else if c then ok tt else if d then ok tt else err e)
        (ok tt)
pass_one a b c d e (inl h) = ground (arith, h)
pass_one a b c d e (inr (inl h)) = ground (arith, h)
pass_one a b c d e (inr (inr (inl h))) = ground (arith, h)
pass_one a b c d e (inr (inr (inr h))) = ground (arith, h)
