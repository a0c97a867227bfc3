-- ===== src/Watchdog/Rounds.antt =====
-- How the steps and the rounds of a fire end.
use flock_os.Watchdog.Steps.{
  post, escalate, escalate_on, call_board, release_linked, invoke, redetect, look_again, proceed,
  attempt_once, classify_probe,
}
use flock_os.Watchdog.{
  WatchdogConfig, Ports, World, Fire, Fault, recovery_action_error, out_of_fuel, Act, act,
  LivenessProbe, Comment, EscalationReason, Answer, done, forbidden, failed, slept, back_off,
  release_on, settle,
}
use flock_os.Recovery.{RunVerdict}
use flock_os.Base.Stateful.{go_on, ◌>>=◌, ◌>>◌}
use flock_os.Base.{
  ℕ, ◌≡◌, refl, String, string_eq, nat_eq, ◌==◌, Bool, Bool-cases, Option-cases, true, false, inl,
  inr, List, Option, none, some, Result, ok, err,
}

-- A port that fails: a release that raises another error than a forbidden one, or a refused restart.
pub data PortFails (ports : Ports) : Type 0 where
  release_fails :
      (acts : List Act) (issue owner : String)
      → ports.release acts issue owner ≡ failed
      → PortFails ports
  invoke_fails : (acts : List Act) → ports.invokes acts ≡ false → PortFails ports

module _ (ports : Ports) where
  -- The call returns a value with the property, or a port has failed.
  abbrev pub Ends : {A : Type 0} → (A → Type 0) → Result Fault A → Type 0
  Ends P (ok a) = P a
  Ends P (err recovery_action_error) = PortFails ports
  Ends P (err out_of_fuel) = ⊥

  pub bind-Ends :
      {A B : Type 0} (P : A → Type 0) (Q : B → Type 0) (m : Fire A) (f : A → Fire B) (w : World)
      → Ends P (m w).0
      → ((a : A) (v : World) → P a → Ends Q (f a v).0)
      → Ends Q ((m >>= f) w).0
  bind-Ends {A} {B} P Q m f w p q = go (m w) p
    where
      go : (r : Result Fault A × World) → Ends P r.0 → Ends Q (go_on r f).0
      go (ok a, v) h = q a v h
      go (err recovery_action_error, v) h = h
      go (err out_of_fuel, v) h = h

  abbrev Any : {A : Type 0} → A → Type 0
  Any a = Unit {0}

module _ (config : WatchdogConfig) (ports : Ports) where
  pub post-Ends :
      (body : Comment) (w : World) → Ends ports (λ u. Any ports u) (post config ports body w).0
  unfolding post
  post-Ends body w = elim (Option-cases config.watchdog_issue_id) [
    | inl missing ↦ rw missing tt
    | inr (issue, there) ↦ elim (Bool-cases (ports.posts w.acts)) [
      | inl accepted ↦ rw (there, accepted) tt
      | inr refused ↦ rw (there, refused) tt
    ]
  ]

  pub call_board-Ends :
      (verdict : RunVerdict) (attempts : ℕ) (reason : EscalationReason) (w : World)
      → Ends ports (λ o. Unit {0}) (call_board config ports verdict attempts reason w).0
  unfolding call_board escalate
  call_board-Ends verdict attempts reason w =
      bind-Ends ports (λ a. Unit {0}) (λ o. Unit {0}) (escalate config ports verdict reason) _ w
        (escalated (ports.approves w.acts))
        (λ approval v t.
          bind-Ends ports (λ u. Unit {0}) (λ o. Unit {0}) (post config ports _) _ v (post-Ends _ v)
            (λ u x k. tt))
    where
      escalated :
          (a : Option (Option String))
          → Ends ports (λ x. Unit {0}) (escalate_on config ports verdict reason a w).0
      escalated none = unfold escalate_on in tt
      escalated (some approval) = unfold escalate_on in tt

  back_off-Ends :
      (seconds : Option ℕ) (attempt : ℕ) (w : World)
      → Ends ports (λ u. Unit {0}) (back_off seconds attempt w).0
  unfolding back_off
  back_off-Ends none attempt w = tt
  back_off-Ends (some seconds) attempt w = elim (Bool-cases (seconds == 0)) [
    | inl at_once ↦ rw at_once tt
    | inr wait ↦ rw wait tt
  ]

  release_linked-Ends :
      (linked : Option String) (owner : String) (w : World)
      → Ends ports (λ u. Unit {0}) (release_linked config ports linked owner w).0
  unfolding release_linked
  release_linked-Ends none owner w = tt
  release_linked-Ends (some issue) owner w = answered (ports.release w.acts issue owner) refl
    where
      answered :
          (a : Answer)
          → ports.release w.acts issue owner ≡ a
          → Ends ports (λ u. Unit {0}) (release_on issue owner a w).0
      answered done e = unfold release_on in tt
      answered forbidden e = unfold release_on in tt
      answered failed e = unfold release_on in release_fails w.acts issue owner e

  invoke-Ends : (w : World) → Ends ports (λ u. Unit {0}) (invoke config ports w).0
  unfolding invoke
  invoke-Ends w = elim (Bool-cases (ports.invokes w.acts)) [
    | inl accepted ↦ rw accepted tt
    | inr raised ↦ rw raised (invoke_fails w.acts raised)
  ]

  settle-Ends :
      (attempt : ℕ) (b : Bool) (v : RunVerdict) (w : World)
      → Ends ports (λ u. Unit {0}) (settle attempt b v w).0
  unfolding settle
  settle-Ends attempt true v w = tt
  settle-Ends attempt false v w = tt

  redetect-Ends :
      (current : RunVerdict) (attempt : ℕ) (probe : LivenessProbe) (now : ℕ) (w : World)
      → Ends ports (λ u. Unit {0}) (redetect config ports current attempt probe now w).0
  unfolding redetect classify_probe
  redetect-Ends current attempt probe now w = elim (Option-cases probe.run) [
    | inl cleared ↦ rw cleared (settle-Ends attempt true current w)
    | inr (run, there) ↦ elim (Bool-cases probe.linked_issue_is_terminal) [
      | inl terminal ↦ rw (there, terminal) (settle-Ends attempt true current w)
      | inr open_issue ↦ rw (there, open_issue) (settle-Ends attempt _ _ w)
    ]
  ]

  proceed-Ends :
      (current : RunVerdict) (attempt : ℕ) (going : Bool) (w : World)
      → Ends ports (λ u. Unit {0}) (proceed config ports current attempt going w).0
  unfolding proceed look_again
  proceed-Ends current attempt true w =
      bind-Ends ports (λ u. Unit {0}) (λ u. Unit {0})
        (λ v. (invoke config ports >> act (slept config.admit_wait_seconds)) v)
        (λ u. look_again config ports current attempt) w
        (bind-Ends ports (λ u. Unit {0}) (λ u. Unit {0}) (invoke config ports)
          (λ u. act (slept config.admit_wait_seconds)) w (invoke-Ends w) (λ u v t. tt))
        (λ u v t. redetect-Ends current attempt (ports.probe v.acts) (ports.clock v.acts) v)
  proceed-Ends current attempt false w = tt

  pub attempt_once-Ends :
      (owner : String) (linked : Option String) (current : RunVerdict) (attempt : ℕ)
      (backoff : Option ℕ) (w : World)
      → Ends ports
          (λ u. Unit {0})
          (attempt_once config ports owner linked current attempt backoff w).0
  unfolding attempt_once
  attempt_once-Ends owner linked current attempt backoff w =
      bind-Ends ports (λ u. Unit {0}) (λ u. Unit {0}) (back_off backoff attempt)
        (λ u. release_linked config ports linked owner >>= proceed config ports current attempt) w
        (back_off-Ends backoff attempt w)
        (λ u v t.
          bind-Ends ports (λ going. Unit {0}) (λ round. Unit {0})
            (release_linked config ports linked owner) (proceed config ports current attempt) v
            (release_linked-Ends linked owner v)
            (λ going x k. proceed-Ends current attempt going x))
