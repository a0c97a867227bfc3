-- ===== src/Registrations/Capacity.antt =====
-- Seats: the two readings of the capacity, and the count that a seat adds to.
use flock_os.Registrations.{is_waitlisted, is_capped, capacity_decision, is_capacity_full}
use flock_os.Base.Int.{ℤ, pos, ltz}
use flock_os.Base.{
  ℕ, ◌+◌, ◌≤◌, ◌≡◌, refl, string_eq, Bool-cases, true, false, not, ◌&&◌, inl, inr, Option, none,
  some, arith,
}

-- A registrant gets a seat exactly where the event is not full, waits exactly where it is, and an
-- event is full only where a capacity is set.
pub capacity_decision-is_capacity_full :
    (capacity : Option ℤ) (count : ℤ)
    → ((capacity_decision capacity count).seated ≡ not (is_capacity_full capacity count))
      × (is_waitlisted (capacity_decision capacity count) ≡ is_capacity_full capacity count)
      × ((is_capacity_full capacity count && not (is_capped capacity)) ≡ false)
unfolding capacity_decision is_capacity_full
capacity_decision-is_capacity_full none count = (refl, refl, refl)
capacity_decision-is_capacity_full (some limit) count = elim (Bool-cases (ltz limit (pos 1))) [
  | inl open_ended ↦ rw open_ended (refl, refl, refl)
  | inr capped ↦ elim (Bool-cases (ltz count limit)) [
    | inl room ↦ rw capped (rw room (refl, refl, refl))
    | inr full ↦ rw capped (rw full (refl, refl, refl))
  ]
]

-- After a seat is taken, the count is at most the capacity, where one is set.
pub capacity_decision-bound :
    (capacity count : ℕ)
    → 1 ≤ capacity
    → (capacity_decision (some (pos capacity)) (pos count)).seated ≡ true
    → count + 1 ≤ capacity
unfolding capacity_decision
capacity_decision-bound capacity count set seated = ground (arith, set, seated)
