-- ===== src/Engagement/Session/Window.antt =====
-- The window of a session: from its opening to its closing and the grace after it.
use flock_os.Engagement.Session.{Session, second, validate_session_window, before_open, after_grace}
use flock_os.Base.{
  ℕ, ◌+◌, ◌*◌, ◌≤◌, ◌<◌, ◌≡◌, ◌⊎◌, refl, Bool-cases, true, false, inl, inr, Option, Option-cases,
  none, some, arith,
}

-- A bound that holds where it is set.
abbrev pub Bound : (ℕ → Type 0) → Option ℕ → Type 0
Bound P none = Unit
Bound P (some t) = P t

before_open-Bound :
    (s : Session) (at : ℕ) → before_open s at ≡ false → Bound (λ open_at. open_at ≤ at) s.open_at
before_open-Bound s at h = elim (Option-cases s.open_at) [
  | inl unset ↦ rw unset tt
  | inr (t, set) ↦ rw set (ground arith)
]

after_grace-Bound :
    (s : Session) (at grace : ℕ)
    → after_grace s at grace ≡ false
    → Bound (λ close_at. at ≤ close_at + grace * second) s.close_at
after_grace-Bound s at grace h = elim (Option-cases s.close_at) [
  | inl unset ↦ rw unset tt
  | inr (t, set) ↦ rw set (ground arith)
]

-- A submission is in the window, without a reason, exactly when it is not before the opening nor
-- after the closing and the grace, where these are set; otherwise the reason names the first bound
-- that it breaks.
pub validate_session_window_lem :
    (s : Session) (at grace : ℕ)
    → ((validate_session_window s at grace ≡ (true, none))
        × Bound (λ open_at. open_at ≤ at) s.open_at
        × Bound (λ close_at. at ≤ close_at + grace * second) s.close_at)
      ⊎ (((validate_session_window s at grace ≡ (false, some "before_open"))
            × ((open_at : ℕ) × (s.open_at ≡ some open_at) × (at < open_at)))
          ⊎ ((validate_session_window s at grace ≡ (false, some "after_grace"))
              × Bound (λ open_at. open_at ≤ at) s.open_at
              × ((close_at : ℕ) × (s.close_at ≡ some close_at) × (close_at + grace * second < at))))
unfolding validate_session_window
validate_session_window_lem s at grace = elim (Bool-cases (before_open s at)) [
  | inl early ↦ inr (
      inl (
        rw early refl,
        elim (Option-cases s.open_at) [
          | inl unset ↦ let p : ⊥ = ground arith in absurd p
          | inr (t, set) ↦ (t, set, ground arith)
        ],
      ))
  | inr started ↦ elim (Bool-cases (after_grace s at grace)) [
    | inl late ↦ inr (
        inr (
          rw (started, late) refl,
          before_open-Bound s at started,
          elim (Option-cases s.close_at) [
            | inl unset ↦ let p : ⊥ = ground arith in absurd p
            | inr (t, set) ↦ (t, set, ground arith)
          ],
        ))
    | inr in_time ↦ inl (
      rw (started, in_time) refl,
      before_open-Bound s at started,
      after_grace-Bound s at grace in_time,
    )
  ]
]
