-- ===== src/Trees/Fuel.antt =====
-- The measure that bounds the traversals: the entries of the view whose key is not seen yet.
use flock_os.Base.{
  ℕ, ◌+◌, ◌≤◌, ◌<◌, ◌≡◌, Eq, false, List, [], ◌∷◌, some, arith, contains, length, if◌then◌else◌,
}
use flock_os.Base.Dict.{lookup}

module _ {ℓ κ} {K : Type ℓ} {V : Type κ} ⦃e : Eq K⦄ where
  abbrev pub unseen : List K → List (K × V) → ℕ
  unseen seen [] = 0
  unseen seen ((k, v) ∷ m) = (if contains seen k then 0 else 1) + unseen seen m

  pub unseen-le-length : (seen : List K) (m : List (K × V)) → unseen seen m ≤ length m
  unseen-le-length seen [] = omega arith
  unseen-le-length seen ((k, v) ∷ m) = ground (arith, unseen-le-length seen m)

  pub unseen-cons_le :
      (c : K) (seen : List K) (m : List (K × V)) → unseen (c ∷ seen) m ≤ unseen seen m
  unseen-cons_le c seen [] = omega arith
  unseen-cons_le c seen ((k, v) ∷ m) = ground (arith, unseen-cons_le c seen m)

  -- To see a key of the view lowers the measure.
  pub unseen-cons_lt :
      (c : K) (seen : List K) (m : List (K × V)) {v : V}
      → contains seen c ≡ false
      → lookup c m ≡ some v
      → unseen (c ∷ seen) m < unseen seen m
  unseen-cons_lt c seen [] fresh found = cc
  unseen-cons_lt c seen ((k, w) ∷ m) {v} fresh found = ground (
    arith,
    e.test_iff k c,
    e.test_iff c k,
    unseen-cons_le c seen m,
    unseen-cons_lt c seen m {v = v} fresh,
  )
