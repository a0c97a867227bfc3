-- ===== src/CeoHeartbeat/Sorting.antt =====
-- The sorting of the durations: in order, with the same numbers and the same sum.
use flock_os.CeoHeartbeat.{insert_duration, sort_durations, sum}
use flock_os.Base.{
  ℕ, suc, ◌+◌, Bool, ◌≤◌, ◌≡◌, refl, ap, ◌∙◌, Bool-cases, inl, inr, List, [], ◌∷◌, length, count,
  leb, nat_eq, All, All-mono, arith,
}

-- In ascending order: each entry is at most the later ones.
abbrev pub IsAscending : List ℕ → Type 0
IsAscending [] = Unit
IsAscending (x ∷ xs) = All (λ y. x ≤ y) xs × IsAscending xs

length-insert : (d : ℕ) (xs : List ℕ) → length (insert_duration d xs) ≡ suc (length xs)
unfolding insert_duration
length-insert d [] = refl
length-insert d (x ∷ xs) = ground (arith, length-insert d xs)

pub length-sort : (xs : List ℕ) → length (sort_durations xs) ≡ length xs
unfolding sort_durations
length-sort [] = refl
length-sort (x ∷ xs) = length-insert x (sort_durations xs) ∙ ap (λ n. suc n) (length-sort xs)

count-insert :
    (p : ℕ → Bool) (d : ℕ) (xs : List ℕ) → count p (insert_duration d xs) ≡ count p (d ∷ xs)
unfolding insert_duration
count-insert p d [] = refl
count-insert p d (x ∷ xs) = elim (Bool-cases (leb d x)) [
  | inl first ↦ rw first refl
  | inr later ↦ rw later (omega (arith, count-insert p d xs))
]

pub count-sort : (p : ℕ → Bool) (xs : List ℕ) → count p (sort_durations xs) ≡ count p xs
unfolding sort_durations
count-sort p [] = refl
count-sort p (x ∷ xs) = omega (arith, count-insert p x (sort_durations xs), count-sort p xs)

sum-insert : (d : ℕ) (xs : List ℕ) → sum (insert_duration d xs) ≡ d + sum xs
unfolding insert_duration
sum-insert d [] = omega arith
sum-insert d (x ∷ xs) = ground (arith, sum-insert d xs)

pub sum-sort : (xs : List ℕ) → sum (sort_durations xs) ≡ sum xs
unfolding sort_durations
sum-sort [] = refl
sum-sort (x ∷ xs) = sum-insert x (sort_durations xs) ∙ ap (λ n. x + n) (sum-sort xs)

All-insert :
    (low d : ℕ) (xs : List ℕ)
    → low ≤ d
    → All (λ y. low ≤ y) xs
    → All (λ y. low ≤ y) (insert_duration d xs)
unfolding insert_duration
All-insert low d [] h k = (h, tt)
All-insert low d (x ∷ xs) h k = elim (Bool-cases (leb d x)) [
  | inl first ↦ rw first (h, k)
  | inr later ↦ rw later (k.0, All-insert low d xs h k.1)
]

insert-IsAscending : (d : ℕ) (xs : List ℕ) → IsAscending xs → IsAscending (insert_duration d xs)
unfolding insert_duration
insert-IsAscending d [] h = (tt, tt)
insert-IsAscending d (x ∷ xs) h = elim (Bool-cases (leb d x)) [
  | inl first ↦
      let below : d ≤ x = ground (arith, first) in
      rw first ((ground (arith, first), All-mono xs (λ y low. omega (arith, below, low)) h.0), h)
  | inr later ↦
      rw later (All-insert x d xs (ground (arith, later)) h.0, insert-IsAscending d xs h.1)
]

pub sort-IsAscending : (xs : List ℕ) → IsAscending (sort_durations xs)
unfolding sort_durations
sort-IsAscending [] = tt
sort-IsAscending (x ∷ xs) = insert-IsAscending x (sort_durations xs) (sort-IsAscending xs)
