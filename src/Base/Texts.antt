-- ===== src/Base/Texts.antt =====
-- The order of texts, by code points, as Python compares them.
use Prim.Native.Nat.{Ordering, compare as compare_ℕ}
use Prim.Native.Char.{Char, code}
use Prim.Native.String.compare
use Prim.Native.String.{String, [], ◌∷◌, compare, then}
use text.Mathlib.Text.{is_eq}
use text.Mathlib.TextPositions.{compare_refl}
use mathlib.Core.Path.{◌≡◌, refl, sym, ap, ◌∙◌, subst}
use mathlib.Core.Logic.{◌⊎◌, inl, inr}
use mathlib.Core.Bool.{Bool, true, false, not, ◌||◌, ◌&&◌}
use native.Mathlib.Omega.{arith}
use flock_os.Base.Tests.{ltb, nat_beq, Bool-cases}
use flock_os.Base.Keys.{◌==◌, string_eq, eq_of_beq}

abbrev not_gt : Ordering → Bool
not_gt Ordering.gt = false
not_gt _ = true

abbrev is_lt : Ordering → Bool
is_lt Ordering.lt = true
is_lt _ = false

-- `s <= t`
abbrev pub text_leb : String → String → Bool
text_leb s t = not_gt (compare s t)

-- `s < t`
abbrev pub text_ltb : String → String → Bool
text_ltb s t = is_lt (compare s t)

not_gt-then : (o p : Ordering) → not_gt (then o p) ≡ (is_lt o || (is_eq o && not_gt p))
not_gt-then Ordering.lt p = refl
not_gt-then Ordering.eq p = refl
not_gt-then Ordering.gt p = refl

is_lt-then : (o p : Ordering) → is_lt (then o p) ≡ (is_lt o || (is_eq o && is_lt p))
is_lt-then Ordering.lt p = refl
is_lt-then Ordering.eq p = refl
is_lt-then Ordering.gt p = refl

module _ (c d : Char) (s t : String) where
  leb-cons :
      text_leb (c ∷ s) (d ∷ t)
      ≡ (ltb (code c) (code d) || (nat_beq (code c) (code d) && text_leb s t))
  leb-cons =
      ap not_gt (compare.cons-cons c d s t)
      ∙ not_gt-then (compare_ℕ (code c) (code d)) (compare s t)
      ∙ refl

  ltb-cons :
      text_ltb (c ∷ s) (d ∷ t)
      ≡ (ltb (code c) (code d) || (nat_beq (code c) (code d) && text_ltb s t))
  ltb-cons =
      ap is_lt (compare.cons-cons c d s t)
      ∙ is_lt-then (compare_ℕ (code c) (code d)) (compare s t)
      ∙ refl

pub text_leb_trans :
    (s t u : String) → text_leb s t ≡ true → text_leb t u ≡ true → text_leb s u ≡ true
text_leb_trans [] [] u h k = k
text_leb_trans [] (d ∷ t) [] h k = refl
text_leb_trans [] (d ∷ t) (e ∷ u) h k = ap not_gt (compare.nil-cons e u)
text_leb_trans (c ∷ s) [] u h k =
    let p : ◌≡◌ {A = Bool} false true = sym (ap not_gt (compare.cons-nil c s)) ∙ h in
    let q : ⊥ = ground (arith, p) in absurd q
text_leb_trans (c ∷ s) (d ∷ t) [] h k =
    let p : ◌≡◌ {A = Bool} false true = sym (ap not_gt (compare.cons-nil d t)) ∙ k in
    let q : ⊥ = ground (arith, p) in absurd q
text_leb_trans (c ∷ s) (d ∷ t) (e ∷ u) h k =
    leb-cons c e s u
    ∙ step (sym (leb-cons c d s t) ∙ h) (sym (leb-cons d e t u) ∙ k) (text_leb_trans s t u)
  where
    step :
        (ltb (code c) (code d) || (nat_beq (code c) (code d) && text_leb s t)) ≡ true
        → (ltb (code d) (code e) || (nat_beq (code d) (code e) && text_leb t u)) ≡ true
        → (text_leb s t ≡ true → text_leb t u ≡ true → text_leb s u ≡ true)
        → (ltb (code c) (code e) || (nat_beq (code c) (code e) && text_leb s u)) ≡ true
    step a b ih = ground (arith, a, b, ih)

pub text_ltb-not : (s t : String) → text_ltb s t ≡ not (text_leb t s)
text_ltb-not [] [] = refl
text_ltb-not [] (d ∷ t) =
    ap is_lt (compare.nil-cons d t) ∙ sym (ap (λ o. not (not_gt o)) (compare.cons-nil d t))
text_ltb-not (c ∷ s) [] =
    ap is_lt (compare.cons-nil c s) ∙ sym (ap (λ o. not (not_gt o)) (compare.nil-cons c s))
text_ltb-not (c ∷ s) (d ∷ t) =
    ltb-cons c d s t
    ∙ step (text_ltb s t) (text_leb t s) (text_ltb-not s t)
    ∙ sym (ap not (leb-cons d c t s))
  where
    step :
        (a b : Bool)
        → a ≡ not b
        → (ltb (code c) (code d) || (nat_beq (code c) (code d) && a))
          ≡ not (ltb (code d) (code c) || (nat_beq (code d) (code c) && b))
    step a b h = ground (arith, h)

pub text_leb_antisym : (s t : String) → text_leb s t ≡ true → text_leb t s ≡ true → (s == t) ≡ true
text_leb_antisym s t h k = only_eq (compare s t) h (text_ltb-not s t ∙ ap not k)
  where
    only_eq : (o : Ordering) → not_gt o ≡ true → is_lt o ≡ false → is_eq o ≡ true
    only_eq Ordering.lt a b = sym b
    only_eq Ordering.eq a b = refl
    only_eq Ordering.gt a b = a

pub text_ltb_self : (s : String) → text_ltb s s ≡ false
text_ltb_self s = ap is_lt (compare_refl s)

pub text_ltb_asym :
    (s t : String) → text_ltb s t ≡ true → (text_ltb t s ≡ false) × ((t == s) ≡ false)
text_ltb_asym s t h =
    (text_ltb-not t s ∙ ap not (below (compare s t) h), differ (Bool-cases (t == s)))
  where
    below : (o : Ordering) → is_lt o ≡ true → not_gt o ≡ true
    below Ordering.lt a = refl
    below Ordering.eq a = refl
    below Ordering.gt a = a

    differ : ((t == s) ≡ true) ⊎ ((t == s) ≡ false) → (t == s) ≡ false
    differ (inl same) =
        let p : ◌≡◌ {A = Bool} false true =
          sym (text_ltb_self s) ∙ subst (λ x. text_ltb s x ≡ true) (eq_of_beq same) h in
        let q : ⊥ = ground (arith, p) in absurd q
    differ (inr other) = other
