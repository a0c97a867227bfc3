-- ===== src/CeoHeartbeat/Oldest.antt =====
-- The alerts sorted by age.
use flock_os.CeoHeartbeat.{SilentRunAlert, insert_by_age, sort_by_age}
use flock_os.Base.{
  ◌≤◌, ◌≡◌, ◌⊎◌, ◌↔◌, string_eq, Bool-cases, inl, inr, List, [], ◌∷◌, ◌++◌, leb, arith,
}

-- The alert stands in the list.
abbrev pub IsAlert : SilentRunAlert → List SilentRunAlert → Type 0
IsAlert a [] = ⊥
IsAlert a (b ∷ bs) = (a ≡ b) ⊎ IsAlert a bs

-- Oldest first.
abbrev pub IsOldestFirst : List SilentRunAlert → Type 0
IsOldestFirst [] = Unit
IsOldestFirst (a ∷ as') = ((b : SilentRunAlert) → IsAlert b as' → b.age ≤ a.age) × IsOldestFirst as'

pub IsAlert-append :
    (a : SilentRunAlert) (xs ys : List SilentRunAlert)
    → (IsAlert a (xs ++ ys) → IsAlert a xs ⊎ IsAlert a ys)
      × (IsAlert a xs ⊎ IsAlert a ys → IsAlert a (xs ++ ys))
IsAlert-append a [] ys = (λ h. inr h, λ h. elim h [ inl e ↦ absurd e | inr r ↦ r ])
IsAlert-append a (x ∷ xs) ys =
    let (split, join) = IsAlert-append a xs ys in
    (
      λ h. elim h [
        | inl e ↦ inl (inl e)
        | inr r ↦ elim (split r) [ inl l ↦ inl (inr l) | inr q ↦ inr q ]
      ],
      λ h. elim h [
        | inl (inl e) ↦ inl e
        | inl (inr l) ↦ inr (join (inl l))
        | inr r ↦ inr (join (inr r))
      ],
    )

IsAlert-insert :
    (a b : SilentRunAlert) (xs : List SilentRunAlert)
    → (IsAlert a (insert_by_age b xs) → (a ≡ b) ⊎ IsAlert a xs)
      × ((a ≡ b) ⊎ IsAlert a xs → IsAlert a (insert_by_age b xs))
unfolding insert_by_age
IsAlert-insert a b [] = (λ h. h, λ h. h)
IsAlert-insert a b (x ∷ xs) = elim (Bool-cases (leb x.age b.age)) [
  | inl first ↦ rw first (λ h. h, λ h. h)
  | inr later ↦
      let (out, back) = IsAlert-insert a b xs in
      rw later (
        λ h. elim h [
          | inl e ↦ inr (inl e)
          | inr r ↦ elim (out r) [ inl e ↦ inl e | inr q ↦ inr (inr q) ]
        ],
        λ h. elim h [
          | inl e ↦ inr (back (inl e))
          | inr (inl e) ↦ inl e
          | inr (inr q) ↦ inr (back (inr q))
        ],
      )
]

pub IsAlert-sort :
    (a : SilentRunAlert) (xs : List SilentRunAlert) → IsAlert a (sort_by_age xs) ↔ IsAlert a xs
unfolding sort_by_age
IsAlert-sort a [] = (λ h. h, λ h. h)
IsAlert-sort a (x ∷ xs) =
    let (out, back) = IsAlert-insert a x (sort_by_age xs) in
    let (down, up) = IsAlert-sort a xs in
    (
      λ h. elim (out h) [ inl e ↦ inl e | inr r ↦ inr (down r) ],
      λ h. elim h [ inl e ↦ back (inl e) | inr r ↦ back (inr (up r)) ],
    )

insert-IsOldestFirst :
    (b : SilentRunAlert) (xs : List SilentRunAlert)
    → IsOldestFirst xs
    → IsOldestFirst (insert_by_age b xs)
unfolding insert_by_age
insert-IsOldestFirst b [] h = (λ a m. absurd m, tt)
insert-IsOldestFirst b (x ∷ xs) h = elim (Bool-cases (leb x.age b.age)) [
  | inl first ↦ rw first (
    (λ a m. elim m [
      | inl e ↦ rw e (ground (arith, first))
      | inr r ↦ ground (arith, first, h.0 a r)
    ]),
    h,
  )
  | inr later ↦ rw later (
    (λ a m. elim ((IsAlert-insert a b xs).0 m) [
      | inl e ↦ rw e (ground (arith, later))
      | inr r ↦ h.0 a r
    ]),
    insert-IsOldestFirst b xs h.1,
  )
]

pub sort-IsOldestFirst : (xs : List SilentRunAlert) → IsOldestFirst (sort_by_age xs)
unfolding sort_by_age
sort-IsOldestFirst [] = tt
sort-IsOldestFirst (x ∷ xs) = insert-IsOldestFirst x (sort_by_age xs) (sort-IsOldestFirst xs)
