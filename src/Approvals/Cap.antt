-- ===== src/Approvals/Cap.antt =====
-- What the depth cap and the renumbering keep of the steps.
use flock_os.Approvals.{StepSpec, branch_admin, is_pending, keep_within, reindex}
use flock_os.Base.{
  ℕ, zero, suc, ◌≤◌, ◌≡◌, refl, sym, ap, subst, String, string_eq, option_eq, ◌==◌, eq_iff_lem,
  eq_of_beq, Bool, Bool-cases, true, false, not, ◌&&◌, inl, inr, List, [], ◌∷◌, map, Option, some,
  contains, IsDistinct, All, count, filter, arith,
}

abbrev pub member_of : StepSpec → Option String
member_of s = s.approver_member

abbrev pub is_leader : StepSpec → Bool
is_leader s = not (s.approver_level == branch_admin)

-- A step of the admin is pending, whoever asks.
pub record IsAdminStep (s : StepSpec) : Type 0 where
  pub level : s.approver_level ≡ branch_admin
  pub status : s.step_status ≡ "Pending"

pub IsDistinct-some : (xs : List String) → IsDistinct xs → IsDistinct (map (λ x. some x) xs)
IsDistinct-some [] d = tt
IsDistinct-some (x ∷ xs) d = (absent xs d.0, IsDistinct-some xs d.1)
  where
    absent :
        (ys : List String)
        → contains ys x ≡ false
        → contains (map (λ y. some y) ys) (some x) ≡ false
    absent [] h = refl
    absent (y ∷ ys) h = ground (arith, h, absent ys (ground (arith, h)))

pub keep_within-All {ℓ} :
    (P : StepSpec → Type ℓ) (n : ℕ) (xs : List StepSpec) → All P xs → All P (keep_within n xs)
unfolding keep_within
keep_within-All P n [] h = tt
keep_within-All P zero (x ∷ xs) h = elim (Bool-cases (x.step_status == "Skipped")) [
  | inl skipped ↦ rw skipped (h.0, keep_within-All P zero xs h.1)
  | inr due ↦ rw due (keep_within-All P zero xs h.1)
]
keep_within-All P (suc n) (x ∷ xs) h = elim (Bool-cases (x.step_status == "Skipped")) [
  | inl skipped ↦ rw skipped (h.0, keep_within-All P (suc n) xs h.1)
  | inr due ↦ rw due (h.0, keep_within-All P n xs h.1)
]

keep_within-absent :
    (m : Option String) (n : ℕ) (xs : List StepSpec)
    → contains (map member_of xs) m ≡ false
    → contains (map member_of (keep_within n xs)) m ≡ false
unfolding keep_within
keep_within-absent m n [] h = refl
keep_within-absent m zero (x ∷ xs) h =
    ground (arith, h, keep_within-absent m zero xs (ground (arith, h)))
keep_within-absent m (suc n) (x ∷ xs) h = ground (
  arith,
  h,
  keep_within-absent m (suc n) xs (ground (arith, h)),
  keep_within-absent m n xs (ground (arith, h)),
)

pub keep_within-IsDistinct :
    (n : ℕ) (xs : List StepSpec)
    → IsDistinct (map member_of xs)
    → IsDistinct (map member_of (keep_within n xs))
unfolding keep_within
keep_within-IsDistinct n [] d = tt
keep_within-IsDistinct zero (x ∷ xs) d = elim (Bool-cases (x.step_status == "Skipped")) [
  | inl skipped ↦
      rw skipped
        (keep_within-absent x.approver_member zero xs d.0, keep_within-IsDistinct zero xs d.1)
  | inr due ↦ rw due (keep_within-IsDistinct zero xs d.1)
]
keep_within-IsDistinct (suc n) (x ∷ xs) d = elim (Bool-cases (x.step_status == "Skipped")) [
  | inl skipped ↦
      rw skipped
        (keep_within-absent x.approver_member (suc n) xs d.0, keep_within-IsDistinct (suc n) xs d.1)
  | inr due ↦
      rw due (keep_within-absent x.approver_member n xs d.0, keep_within-IsDistinct n xs d.1)
]

skipped_is_decided :
    (status : String) → (status == "Skipped") ≡ true → (status == "Pending") ≡ false
skipped_is_decided status skipped =
    subst (λ x. (x == "Pending") ≡ false) (sym (eq_of_beq {a = status} skipped)) refl

pub count-keep_within : (n : ℕ) (xs : List StepSpec) → count is_pending (keep_within n xs) ≤ n
unfolding keep_within
count-keep_within n [] = omega arith
count-keep_within zero (x ∷ xs) = elim (Bool-cases (x.step_status == "Skipped")) [
  | inl skipped ↦
      rw skipped
        (ground (arith, skipped_is_decided x.step_status skipped, count-keep_within zero xs))
  | inr due ↦ rw due (count-keep_within zero xs)
]
count-keep_within (suc n) (x ∷ xs) = elim (Bool-cases (x.step_status == "Skipped")) [
  | inl skipped ↦
      rw skipped
        (ground (arith, skipped_is_decided x.step_status skipped, count-keep_within (suc n) xs))
  | inr due ↦ rw due (ground (arith, count-keep_within n xs))
]

-- Renumbering changes nothing else.
pub reindex-reindex : (i j : ℕ) (xs : List StepSpec) → reindex i (reindex j xs) ≡ reindex i xs
unfolding reindex
reindex-reindex i j [] = refl
reindex-reindex i j (x ∷ xs) =
    ap (λ l. record x { idx = i } ∷ l) (reindex-reindex (suc i) (suc j) xs)

pub members-reindex :
    (i : ℕ) (xs : List StepSpec)
    → map member_of (filter is_leader (reindex i xs)) ≡ map member_of (filter is_leader xs)
unfolding reindex
members-reindex i [] = refl
members-reindex i (x ∷ xs) = ground (arith, members-reindex (suc i) xs)

pub count-reindex :
    (i : ℕ) (xs : List StepSpec)
    → count (λ s. is_leader s && is_pending s) (reindex i xs)
      ≡ count (λ s. is_leader s && is_pending s) xs
unfolding reindex
count-reindex i [] = refl
count-reindex i (x ∷ xs) = ground (arith, count-reindex (suc i) xs)

pub filter-leaders :
    (xs : List StepSpec)
    → All (λ s. is_leader s ≡ true) xs
    → (filter is_leader xs ≡ xs) × (filter (λ s. s.approver_level == branch_admin) xs ≡ [])
filter-leaders [] h = (refl, refl)
filter-leaders (x ∷ xs) h =
    (ground (arith, h.0, (filter-leaders xs h.1).0), ground (arith, h.0, (filter-leaders xs h.1).1))

pub filter-admins :
    (xs : List StepSpec)
    → All IsAdminStep xs
    → (filter is_leader xs ≡ []) × (filter (λ s. s.approver_level == branch_admin) xs ≡ xs)
filter-admins [] h = (refl, refl)
filter-admins (x ∷ xs) h = (
  ground (arith, h.0.level, eq_iff_lem x.approver_level branch_admin, (filter-admins xs h.1).0),
  ground (arith, h.0.level, eq_iff_lem x.approver_level branch_admin, (filter-admins xs h.1).1),
)
