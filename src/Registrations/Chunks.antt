-- ===== src/Registrations/Chunks.antt =====
-- The batches of a bulk registration and the members in them.
use flock_os.Registrations.{unique_members, slices, chunk_members}
use flock_os.Base.Int.{pos}
use flock_os.Base.{
  ℕ, zero, suc, ◌≤◌, ◌≡◌, refl, ap, ◌∙◌, String, string_eq, ◌==◌, eq_iff_lem, Bool-cases, not, ◌||◌,
  ◌&&◌, inl, inr, List, [], ◌∷◌, ◌++◌, ok, contains, contains-append, IsDistinct, IsDistinct-snoc,
  add, All, take, drop, length, length-take, length-drop, take-append-drop, arith,
}

abbrev pub concat {ℓ} : {A : Type ℓ} → List (List A) → List A
concat [] = []
concat (xs ∷ rest) = xs ++ concat rest

concat-slices :
    (fuel n : ℕ) (ms : List String) → length ms ≤ fuel → concat (slices fuel (suc n) ms) ≡ ms
unfolding slices
concat-slices fuel n [] h = refl
concat-slices zero n (m ∷ ms) h = let p : ⊥ = omega (arith, h) in absurd p
concat-slices (suc fuel) n (m ∷ ms) h =
    ap (λ l. m ∷ take n ms ++ l)
      (concat-slices fuel n (drop n ms) (omega (arith, h, length-drop n ms)))
    ∙ ap (λ l. m ∷ l) (take-append-drop n ms)

-- Neither empty nor larger than the size.
abbrev pub IsBatch : ℕ → List String → Type 0
IsBatch size batch = (1 ≤ length batch) × (length batch ≤ size)

slices-IsBatch : (fuel n : ℕ) (ms : List String) → All (IsBatch (suc n)) (slices fuel (suc n) ms)
unfolding slices
slices-IsBatch fuel n [] = tt
slices-IsBatch zero n (m ∷ ms) = tt
slices-IsBatch (suc fuel) n (m ∷ ms) =
    ((omega arith, omega (arith, length-take n ms)), slices-IsBatch fuel n (drop n ms))

contains_unique :
    (seen members : List String) (m : String)
    → contains (unique_members seen members) m
      ≡ (contains seen m || (contains members m && not (m == "")))
unfolding unique_members
contains_unique seen [] m = ground arith
contains_unique seen (x ∷ members) m = ground (
  arith,
  contains_unique seen members m,
  contains_unique (add seen x) members m,
  contains-append seen (x ∷ []) m,
  eq_iff_lem x m,
  eq_iff_lem x "",
  eq_iff_lem m "",
)

unique-IsDistinct :
    (seen members : List String) → IsDistinct seen → IsDistinct (unique_members seen members)
unfolding unique_members
unique-IsDistinct seen [] d = d
unique-IsDistinct seen (x ∷ members) d = elim (Bool-cases (x == "")) [
  | inl empty ↦ rw empty (unique-IsDistinct seen members d)
  | inr named ↦ rw named (elim (Bool-cases (contains seen x)) [
    | inl old ↦ rw old (unique-IsDistinct seen members d)
    | inr new ↦ rw new (unique-IsDistinct (seen ++ x ∷ []) members (IsDistinct-snoc seen x d new))
  ])
]

-- For every batch size of at least 1 the batches hold, put together, each member with a name exactly
-- once and nothing else; no batch is empty or larger than the size.
pub chunk_members_lem :
    (members : List String) (n : ℕ)
    → (batches : List (List String)) × (chunk_members members (pos (suc n)) ≡ ok batches)
      × All (IsBatch (suc n)) batches
      × IsDistinct (concat batches)
      × ((m : String) → contains (concat batches) m ≡ (contains members m && not (m == "")))
unfolding chunk_members
chunk_members_lem members n =
    let unique = unique_members [] members in
    let whole = concat-slices (length unique) n unique (omega arith) in
    (
      slices (length unique) (suc n) unique,
      refl,
      slices-IsBatch (length unique) n unique,
      rw whole (unique-IsDistinct [] members tt),
      λ m. ap (λ l. contains l m) whole ∙ contains_unique [] members m,
    )
