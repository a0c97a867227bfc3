-- ===== src/Engagement/Review.antt =====
-- The queue of flagged participations that a facilitator reviews.
use flock_os.Engagement.Session.{StatusFlags}
use flock_os.Engagement.Gateway.{Participation}
use flock_os.Base.Int.{ℤ, pos_part}
use flock_os.Base.{
  ℕ, ◌+◌, ◌-◌, ◌≤◌, ◌≡◌, refl, ap, ◌∙◌, sym, String, string_eq, ◌==◌, Bool, Bool-cases, not, ◌||◌,
  inl, inr, List, [], ◌∷◌, ◌++◌, map, append-nil, append_assoc, suc, take, filter, count, length,
  length-append, length-take, length-map, length-filter, take-nil, if◌then◌else◌, ltb, arith,
}

unfoldable pub suspect_review_reason : StatusFlags → String
suspect_review_reason flags =
    if flags.suspect_pattern
    then "Flagged by an anti-abuse heuristic (still counted until revoked)."
    else if flags.out_of_scope
    then "Submitted outside the session window (recorded, excluded from headcount)."
    else "Flagged for facilitator review."

pub record ReviewItem : Type 0 where
  pub attendee_key : String
  pub attendee_display_name : String
  pub flag : String
  pub reason : String

pub record ReviewQueue : Type 0 where
  pub items : List ReviewItem
  pub total : ℕ
  pub limit : ℕ
  pub capped : Bool

abbrev pub is_flagged : Participation → Bool
is_flagged p = p.status_flags.suspect_pattern || p.status_flags.out_of_scope

unfoldable pub review_item : Participation → ReviewItem
unfolding suspect_review_reason
review_item p = record {
  attendee_key = p.attendee_key;
  attendee_display_name =
      if p.attendee_display_name == "" then "Anonymous" else p.attendee_display_name;
  flag = if p.status_flags.suspect_pattern then "suspect_pattern" else "out_of_scope";
  reason = suspect_review_reason p.status_flags;
}

-- The loop, with `items` and `total` so far.
unfoldable pub review_loop : ℕ → List ReviewItem → ℕ → List Participation → List ReviewItem × ℕ
unfolding review_item
review_loop limit items total [] = (items, total)
review_loop limit items total (p ∷ rest) =
    let skipped = review_loop limit items total rest in
    let kept =
      review_loop limit (if ltb (length items) limit then items ++ review_item p ∷ [] else items)
        (total + 1) rest in
    if not (is_flagged p) then skipped else kept

unfoldable pub review_queue_items : List Participation → ℤ → ReviewQueue
unfolding review_loop
review_queue_items participations limit =
    let bound = pos_part limit in
    let (items, total) = review_loop bound [] 0 participations in
    record { items = items; total = total; limit = bound; capped = ltb bound total }

take-append_more {ℓ} :
    {A : Type ℓ} (n : ℕ) (xs : List A) (y : A) (ys : List A)
    → length xs ≤ n
    → xs ++ take (n - length xs) (y ∷ ys)
      ≡ (if ltb (length xs) n then xs ++ y ∷ [] else xs)
        ++ take (n - length (if ltb (length xs) n then xs ++ y ∷ [] else xs)) ys
take-append_more n xs y ys h = elim (Bool-cases (ltb (length xs) n)) [
  | inl more ↦
      let left : n - length xs ≡ suc (n - length (xs ++ y ∷ [])) =
        ground (arith, length-append xs (y ∷ [])) in
      rw more (rw left (sym (append_assoc xs (y ∷ []) (take (n - length (xs ++ y ∷ [])) ys))))
  | inr full ↦ let none_left : n - length xs ≡ 0 = ground arith in rw full (rw none_left refl)
]

review_loop_lem :
    (limit : ℕ) (items : List ReviewItem) (total : ℕ) (ps : List Participation)
    → length items ≤ limit
    → review_loop limit items total ps ≡ (
      items ++ take (limit - length items) (map review_item (filter is_flagged ps)),
      total + count is_flagged ps,
    )
unfolding review_loop
review_loop_lem limit items total [] h =
    rw (take-nil {A = ReviewItem} (limit - length items)) (ground (arith, append-nil items))
review_loop_lem limit items total (p ∷ rest) h = elim (Bool-cases (is_flagged p)) [
  | inr plain ↦ ground (arith, review_loop_lem limit items total rest h)
  | inl flagged ↦ rw flagged (
      review_loop_lem limit
        (if ltb (length items) limit then items ++ review_item p ∷ [] else items) (total + 1) rest
        (ground (arith, length-append items (review_item p ∷ [])))
      ∙ ap (λ l. (l, total + 1 + count is_flagged rest))
          (sym (
            take-append_more limit items (review_item p) (map review_item (filter is_flagged rest))
              h))
      ∙ ap
          (λ n. (
            items ++ take (limit - length items) (map review_item (p ∷ filter is_flagged rest)),
            n,
          ))
          (omega arith))
]

-- The queue shows, in order, the first flagged participations up to the limit, a negative limit
-- counting as 0; `total` counts all that are flagged, and `capped` says whether some are not shown.
pub review_queue_items_lem :
    (participations : List Participation) (limit : ℤ)
    → ((review_queue_items participations limit).items
        ≡ take (pos_part limit) (map review_item (filter is_flagged participations)))
      × ((review_queue_items participations limit).total ≡ count is_flagged participations)
      × ((review_queue_items participations limit).capped
          ≡ ltb
              (length (review_queue_items participations limit).items)
              (review_queue_items participations limit).total)
unfolding review_queue_items
review_queue_items_lem participations limit =
    let loop = review_loop_lem (pos_part limit) [] 0 participations (omega arith) in
    rw loop (
      ground arith,
      omega arith,
      ground (
        arith,
        length-take (pos_part limit) (map review_item (filter is_flagged participations)),
        length-map review_item (filter is_flagged participations),
        length-filter is_flagged participations,
      ),
    )
