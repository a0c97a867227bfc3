-- ===== src/CeoHeartbeat/Silence.antt =====
-- Which runs are reported silent, and in which order.
use flock_os.CeoHeartbeat.{
  HeartbeatRun, SilentRunAlert, Budgets, is_in_flight, is_superseded_by_newer_base_run, age_at,
  alert_for, alerts_for, detect_silent_runs,
}
use flock_os.Base.{
  ℕ, ◌≤◌, ◌-◌, ◌≡◌, ◌⊎◌, ◌↔◌, refl, sym, ap, ◌∙◌, subst, String, string_eq, Bool, true, false, not,
  inl, inr, List, [], ◌∷◌, leb, if◌then◌else◌, arith,
}
use flock_os.CeoHeartbeat.Oldest.{
  IsAlert, IsOldestFirst, IsAlert-append, IsAlert-sort, sort-IsOldestFirst,
}

abbrev pub IsRun : HeartbeatRun → List HeartbeatRun → Type 0
IsRun r [] = ⊥
IsRun r (q ∷ qs) = (r ≡ q) ⊎ IsRun r qs

-- A run in flight that no newer base run supersedes, past one of the budgets.
pub record IsSilent (budgets : Budgets) (now : ℕ) (runs : List HeartbeatRun) (a : SilentRunAlert)
    : Type 0 where
  pub of_run : IsRun a.run runs
  pub in_flight : is_in_flight a.run ≡ true
  pub current : is_superseded_by_newer_base_run a.run runs ≡ false
  pub age_of_run : a.age ≡ now - a.run.triggered_at
  pub severity_of_age :
      ((a.severity ≡ "critical") × (budgets.critical ≤ a.age))
      ⊎ ((a.severity ≡ "warning")
          × (leb budgets.critical a.age ≡ false)
          × (budgets.warning ≤ a.age))

choice :
    (flying old critical warning : Bool) (a c w : SilentRunAlert)
    → IsAlert a (
        if not flying
        then []
        else if old
        then []
        else if critical
        then c ∷ []
        else if warning
        then w ∷ []
        else [])
      ↔ ((flying ≡ true)
          × (old ≡ false)
          × (((critical ≡ true) × (a ≡ c)) ⊎ ((critical ≡ false) × (warning ≡ true) × (a ≡ w))))
choice false old critical warning a c w = (λ h. absurd h, λ h. cc)
choice true true critical warning a c w = (λ h. absurd h, λ h. cc)
choice true false true warning a c w = (
  λ h. elim h [ inl e ↦ (refl, refl, inl (refl, e)) | inr n ↦ absurd n ],
  λ h. elim h.2 [ inl k ↦ inl k.1 | inr k ↦ cc ],
)
choice true false false true a c w = (
  λ h. elim h [ inl e ↦ (refl, refl, inr (refl, refl, e)) | inr n ↦ absurd n ],
  λ h. elim h.2 [ inl k ↦ cc | inr k ↦ inl k.2 ],
)
choice true false false false a c w = (λ h. absurd h, λ h. elim h.2 [ inl k ↦ cc | inr k ↦ cc ])

module _ (budgets : Budgets) (now : ℕ) (runs : List HeartbeatRun) where
  abbrev alert : String → HeartbeatRun → SilentRunAlert
  alert severity run = record { run = run; age = age_at now run; severity = severity }

  -- What the body of the loop says of one run.
  abbrev IsJudged : HeartbeatRun → SilentRunAlert → Type 0
  IsJudged run a =
      (is_in_flight run ≡ true)
      × (is_superseded_by_newer_base_run run runs ≡ false)
      × (((leb budgets.critical (age_at now run) ≡ true) × (a ≡ alert "critical" run))
          ⊎ ((leb budgets.critical (age_at now run) ≡ false)
              × (leb budgets.warning (age_at now run) ≡ true)
              × (a ≡ alert "warning" run)))

  alert_for-IsJudged :
      (run : HeartbeatRun) (a : SilentRunAlert)
      → IsAlert a (alert_for budgets now runs run) ↔ IsJudged run a
  unfolding alert_for
  alert_for-IsJudged run a =
      choice (is_in_flight run) (is_superseded_by_newer_base_run run runs)
        (leb budgets.critical (age_at now run)) (leb budgets.warning (age_at now run)) a
        (alert "critical" run) (alert "warning" run)

  alerts_for-IsJudged :
      (rest : List HeartbeatRun) (a : SilentRunAlert)
      → (IsAlert a (alerts_for budgets now runs rest) → IsRun a.run rest × IsJudged a.run a)
        × (IsRun a.run rest × IsJudged a.run a → IsAlert a (alerts_for budgets now runs rest))
  unfolding alerts_for
  alerts_for-IsJudged [] a = (λ h. absurd h, λ h. absurd h.0)
  alerts_for-IsJudged (run ∷ rest) a =
      let (split, join) =
        IsAlert-append a (alert_for budgets now runs run) (alerts_for budgets now runs rest) in
      let (down, up) = alerts_for-IsJudged rest a in
      (
        λ h. elim (split h) [
          | inl here ↦
              let judged = (alert_for-IsJudged run a).0 here in
              let same = own_run run a judged in
              (inl same, subst (λ r. IsJudged r a) (sym same) judged)
          | inr there ↦ let (member, judged) = down there in (inr member, judged)
        ],
        λ h. elim h.0 [
          | inl same ↦
              join (inl ((alert_for-IsJudged run a).1 (subst (λ r. IsJudged r a) same h.1)))
          | inr member ↦ join (inr (up (member, h.1)))
        ],
      )
    where
      own_run : (r : HeartbeatRun) (b : SilentRunAlert) → IsJudged r b → b.run ≡ r
      own_run r b (flying, current, inl (old, e)) = ap (λ x. x.run) e
      own_run r b (flying, current, inr (young, late, e)) = ap (λ x. x.run) e

  judged-IsSilent :
      (a : SilentRunAlert) → IsRun a.run runs × IsJudged a.run a → IsSilent budgets now runs a
  judged-IsSilent a (member, (flying, current, inl (old, e))) = record {
    of_run = member;
    in_flight = flying;
    current = current;
    age_of_run = ap (λ x. x.age) e;
    severity_of_age = inl (ap (λ x. x.severity) e, ground (arith, old, ap (λ x. x.age) e));
  }
  judged-IsSilent a (member, (flying, current, inr (young, late, e))) = record {
    of_run = member;
    in_flight = flying;
    current = current;
    age_of_run = ap (λ x. x.age) e;
    severity_of_age = inr (
      ap (λ x. x.severity) e,
      ap (λ x. leb budgets.critical x.age) e ∙ young,
      ground (arith, late, ap (λ x. x.age) e),
    );
  }

  silent-IsJudged :
      (a : SilentRunAlert) → IsSilent budgets now runs a → IsRun a.run runs × IsJudged a.run a
  silent-IsJudged a h = (h.of_run, (h.in_flight, h.current, severity_case a h h.severity_of_age))
    where
      severity_case :
          (b : SilentRunAlert)
          → IsSilent budgets now runs b
          → ((b.severity ≡ "critical") × (budgets.critical ≤ b.age))
            ⊎ ((b.severity ≡ "warning")
                × (leb budgets.critical b.age ≡ false)
                × (budgets.warning ≤ b.age))
          → ((leb budgets.critical (age_at now b.run) ≡ true) × (b ≡ alert "critical" b.run))
            ⊎ ((leb budgets.critical (age_at now b.run) ≡ false)
                × (leb budgets.warning (age_at now b.run) ≡ true)
                × (b ≡ alert "warning" b.run))
      severity_case b k (inl (s, old)) = inl (
        ground (arith, old, k.age_of_run),
        λ i. record { run = b.run; age = k.age_of_run i; severity = s i },
      )
      severity_case b k (inr (s, young, late)) = inr (
        ap (λ x. leb budgets.critical x) (sym k.age_of_run) ∙ young,
        ground (arith, late, k.age_of_run),
        λ i. record { run = b.run; age = k.age_of_run i; severity = s i },
      )

  -- The alerts are exactly the silent runs, each run in flight that no newer base run supersedes and
  -- that is past one of the budgets, with its age and with `critical` exactly past the critical one;
  -- the oldest comes first.
  pub detect_silent_runs_lem :
      IsOldestFirst (detect_silent_runs budgets now runs)
      × ((a : SilentRunAlert)
          → IsAlert a (detect_silent_runs budgets now runs) ↔ IsSilent budgets now runs a)
  unfolding detect_silent_runs
  detect_silent_runs_lem = (
    sort-IsOldestFirst (alerts_for budgets now runs runs),
    λ a.
        let (down, up) = IsAlert-sort a (alerts_for budgets now runs runs) in
        let (judged, alerted) = alerts_for-IsJudged runs a in
        (λ h. judged-IsSilent a (judged (down h)), λ h. up (alerted (silent-IsJudged a h))),
  )
