-- ===== src/Watchdog/Board.antt =====
-- What a fire leaves in the trace where it calls the board or has recovered the run.
use flock_os.Watchdog.Steps.{post, escalate, escalate_on, call_board, classify_probe}
use flock_os.Watchdog.{
  WatchdogConfig, Ports, World, Fire, Fault, Act, invoked, slept, opened, texts_of, LivenessProbe,
  WatchdogOutcome, EscalationReason, Comment,
}
use flock_os.CeoHeartbeat.{HeartbeatRun, is_superseded_by_newer_base_run}
use flock_os.Recovery.{RunVerdict}
use flock_os.Base.Stateful.{go_on, ◌>>=◌}
use flock_os.Base.{
  ℕ, ◌≡◌, refl, sym, ap, ◌∙◌, String, string_eq, nat_eq, Bool-cases, Option-cases, true, false, inl,
  inr, List, [], ◌∷◌, ◌++◌, append-nil, append_assoc, Option, none, some, Result, ok, err,
}

-- What a call leaves where it returns.
abbrev pub OnOk : {A : Type 0} → (A → World → Type 0) → Result Fault A × World → Type 0
OnOk P (ok a, w) = P a w
OnOk P (err e, w) = Unit {0}

pub bind-OnOk :
    {A B : Type 0} (P : A → World → Type 0) (Q : B → World → Type 0) (m : Fire A) (f : A → Fire B)
    (w : World)
    → OnOk P (m w)
    → ((a : A) (v : World) → P a v → OnOk Q (f a v))
    → OnOk Q ((m >>= f) w)
bind-OnOk {A} {B} P Q m f w p q = go (m w) p
  where
    go : (r : Result Fault A × World) → OnOk P r → OnOk Q (go_on r f)
    go (ok a, v) h = q a v h
    go (err e, v) h = tt

pub whatever : {A : Type 0} (r : Result Fault A × World) → OnOk (λ a v. Unit {0}) r
whatever (ok a, v) = tt
whatever (err e, v) = tt

-- Later acts come after the earlier ones.
abbrev pub IsAdded : List Act → List Act → Type 0
IsAdded acts later = (added : List Act) × (later ≡ acts ++ added)

pub IsAdded-same : (acts : List Act) → IsAdded acts acts
IsAdded-same acts = ([], sym (append-nil acts))

pub IsAdded-trans : (a b c : List Act) → IsAdded a b → IsAdded b c → IsAdded a c
IsAdded-trans a b c (x, p) (y, q) = (x ++ y, q ∙ ap (λ l. l ++ y) p ∙ append_assoc a x y)

module _ (config : WatchdogConfig) (ports : Ports) where
  -- A probe that shows no run that is in the way: none is there, its issue is done, it is healthy, or
  -- a newer run supersedes it.
  pub data IsCleared (probe : LivenessProbe) (now : ℕ) : Type 0 where
    no_run : probe.run ≡ none → IsCleared probe now
    terminal : probe.linked_issue_is_terminal ≡ true → IsCleared probe now
    healthy :
        (v : RunVerdict)
        → classify_probe config ports probe now ≡ some v
        → v.verdict ≡ "healthy"
        → IsCleared probe now
    superseded :
        (run : HeartbeatRun)
        → probe.run ≡ some run
        → is_superseded_by_newer_base_run run probe.all_runs ≡ true
        → IsCleared probe now

  -- The acts up to a probe after a restart.
  abbrev pub restarted : List Act → List Act
  restarted before =
      (before ++ invoked config.watched_agent_id ∷ []) ++ slept config.admit_wait_seconds ∷ []

  pub post-IsAdded :
      (body : Comment) (w : World) → OnOk (λ u v. IsAdded w.acts v.acts) (post config ports body w)
  unfolding post
  post-IsAdded body w = elim (Option-cases config.watchdog_issue_id) [
    | inl missing ↦ rw missing (IsAdded-same w.acts)
    | inr (issue, there) ↦ elim (Bool-cases (ports.posts w.acts)) [
      | inl accepted ↦ rw (there, accepted) (_, refl)
      | inr refused ↦ rw (there, refused) (IsAdded-same w.acts)
    ]
  ]

-- What a fire adds to the acts at its start.
module _ (config : WatchdogConfig) (ports : Ports) (start : List Act) where
  -- The watched agent was restarted, and the probe after the wait showed the run cleared.
  pub record IsRecovered (acts : List Act) : Type 0 where
    pub before : List Act
    pub back : List Act
    pub in_fire : IsAdded start before
    pub trace : acts ≡ restarted config ports before ++ back
    pub cleared :
        IsCleared config ports
          (ports.probe (restarted config ports before))
          (ports.clock (restarted config ports before))

  -- The approval is opened on the issues of the watchdog and of the run; or it was asked for, and the
  -- port raised.
  pub data BoardCalled (verdict : RunVerdict) (acts : List Act) : Type 0 where
    approval_open :
        (before back : List Act) (reason : EscalationReason)
        → IsAdded start before
        → acts
          ≡ before
            ++ opened (texts_of (config.watchdog_issue_id ∷ verdict.linked_issue_id ∷ [])) reason
              ∷ back
        → BoardCalled verdict acts
    approval_raises :
        (before back : List Act)
        → IsAdded start before
        → acts ≡ before ++ back
        → ports.approves before ≡ none
        → BoardCalled verdict acts

  -- The run was recovered, or the board was called; the outcome says which.
  pub data IsHandled (verdict : RunVerdict) (outcome : WatchdogOutcome) (acts : List Act)
      : Type 0 where
    by_recovery :
        outcome.action ≡ "recovered"
        → outcome.recovered ≡ true
        → IsRecovered acts
        → IsHandled verdict outcome acts
    by_board :
        outcome.action ≡ "escalate_board"
        → outcome.recovered ≡ false
        → BoardCalled verdict acts
        → IsHandled verdict outcome acts

  pub IsRecovered-IsAdded :
      (acts later : List Act) → IsAdded acts later → IsRecovered acts → IsRecovered later
  IsRecovered-IsAdded acts later (added, more) r = record {
    before = r.before;
    in_fire = r.in_fire;
    back = r.back ++ added;
    trace =
        more
        ∙ ap (λ l. l ++ added) r.trace
        ∙ append_assoc (restarted config ports r.before) r.back added;
    cleared = r.cleared;
  }

  BoardCalled-IsAdded :
      (verdict : RunVerdict) (acts later : List Act)
      → IsAdded acts later
      → BoardCalled verdict acts
      → BoardCalled verdict later
  BoardCalled-IsAdded verdict acts later (added, more)
        (approval_open before back reason inside trace) =
      approval_open before (back ++ added) reason inside
        (more ∙ ap (λ l. l ++ added) trace ∙ append_assoc before (_ ∷ back) added)
  BoardCalled-IsAdded verdict acts later (added, more)
        (approval_raises before back inside trace raised) =
      approval_raises before (back ++ added) inside
        (more ∙ ap (λ l. l ++ added) trace ∙ append_assoc before back added) raised

  escalate-BoardCalled :
      (verdict : RunVerdict) (reason : EscalationReason) (w : World)
      → IsAdded start w.acts
      → OnOk (λ a v. BoardCalled verdict v.acts) (escalate config ports verdict reason w)
  unfolding escalate escalate_on
  escalate-BoardCalled verdict reason w inside = answered (ports.approves w.acts) refl
    where
      answered :
          (a : Option (Option String))
          → ports.approves w.acts ≡ a
          → OnOk (λ x v. BoardCalled verdict v.acts) (escalate_on config ports verdict reason a w)
      answered none h = approval_raises w.acts [] inside (sym (append-nil w.acts)) h
      answered (some approval) h = approval_open w.acts [] reason inside refl

  pub call_board-IsHandled :
      (verdict : RunVerdict) (attempts : ℕ) (reason : EscalationReason) (w : World)
      → IsAdded start w.acts
      → OnOk (λ o v. IsHandled verdict o v.acts) (call_board config ports verdict attempts reason w)
  unfolding call_board
  call_board-IsHandled verdict attempts reason w inside =
      bind-OnOk (λ a v. BoardCalled verdict v.acts) (λ o v. IsHandled verdict o v.acts)
        (escalate config ports verdict reason) _ w (escalate-BoardCalled verdict reason w inside)
        (λ approval v called.
          bind-OnOk (λ u x. IsAdded v.acts x.acts) (λ o x. IsHandled verdict o x.acts)
            (post config ports _) _ v (post-IsAdded config ports _ v)
            (λ u x added.
              by_board refl refl (BoardCalled-IsAdded verdict v.acts x.acts added called)))
