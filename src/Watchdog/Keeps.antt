-- ===== src/Watchdog/Keeps.antt =====
-- What each part of a fire adds to the trace of acts.
use flock_os.Watchdog.Steps.{
  proceed, look_again, escalate_on, post, escalate, call_board, release_linked, invoke, redetect,
  attempt_once, classify_probe,
}
use flock_os.Watchdog.{
  WatchdogConfig, Ports, World, Fire, Fault, Act, released, invoked, slept, opened, commented, act,
  Comment, EscalationReason, Answer, done, forbidden, failed, settle, release_on, LivenessProbe,
  back_off,
}
use flock_os.Recovery.{RunVerdict}
use flock_os.Base.Stateful.{go_on, ◌>>=◌, ◌>>◌}
use flock_os.Base.{
  ℕ, suc, ◌+◌, ◌≤◌, ◌≡◌, refl, String, string_eq, nat_eq, ◌==◌, Bool, Bool-cases, Option-cases,
  true, false, inl, inr, List, [], ◌∷◌, ◌++◌, Option, none, some, Result, ok, err, All, All-append,
  arith,
}

abbrev pub invocations : List Act → ℕ
invocations [] = 0
invocations (invoked agent ∷ acts) = suc (invocations acts)
invocations (released issue owner ∷ acts) = invocations acts
invocations (slept seconds ∷ acts) = invocations acts
invocations (opened issues reason ∷ acts) = invocations acts
invocations (commented issue body ∷ acts) = invocations acts

pub invocations-append :
    (xs ys : List Act) → invocations (xs ++ ys) ≡ invocations xs + invocations ys
invocations-append [] ys = omega arith
invocations-append (invoked agent ∷ xs) ys = omega (arith, invocations-append xs ys)
invocations-append (released issue owner ∷ xs) ys = invocations-append xs ys
invocations-append (slept seconds ∷ xs) ys = invocations-append xs ys
invocations-append (opened issues reason ∷ xs) ys = invocations-append xs ys
invocations-append (commented issue body ∷ xs) ys = invocations-append xs ys

module _ (agent : String) (linked : Option String) where
  -- A release is of the linked issue, to another owner than the watched agent.
  abbrev pub IsSafe : Act → Type 0
  IsSafe (released issue owner) = ((owner == agent) ≡ false) × (linked ≡ some issue)
  IsSafe (invoked who) = Unit
  IsSafe (slept seconds) = Unit
  IsSafe (opened issues reason) = Unit
  IsSafe (commented issue body) = Unit

  -- From one trace to the next only safe acts are added, and at most `n` restarts.
  pub record Kept (n : ℕ) (before after : List Act) : Type 0 where
    pub safe : All IsSafe before → All IsSafe after
    pub few : invocations after ≤ n + invocations before

  pub Kept-same : (acts : List Act) → Kept 0 acts acts
  Kept-same acts = record { safe = λ h. h; few = omega arith }

  pub act-Kept :
      (a : Act) (acts : List Act) → IsSafe a → Kept (invocations (a ∷ [])) acts (acts ++ a ∷ [])
  act-Kept a acts h = record {
    safe = λ k. All-append IsSafe acts (a ∷ []) k (h, tt);
    few = omega (arith, invocations-append acts (a ∷ []));
  }

  pub Kept-trans : (n k : ℕ) (a b c : List Act) → Kept n a b → Kept k b c → Kept (n + k) a c
  Kept-trans n k a b c p q = record {
    safe = λ h. q.safe (p.safe h);
    few = omega (arith, p.few, q.few);
  }

  pub Kept-le : (n k : ℕ) (a b : List Act) → n ≤ k → Kept n a b → Kept k a b
  Kept-le n k a b h p = record { safe = p.safe; few = omega (arith, h, p.few) }

  pub bind-Kept :
      {A B : Type 0} (n k : ℕ) (m : Fire A) (f : A → Fire B) (w : World)
      → Kept n w.acts (m w).1.acts
      → ((a : A) (v : World) → Kept k v.acts (f a v).1.acts)
      → Kept (n + k) w.acts ((m >>= f) w).1.acts
  bind-Kept {A} {B} n k m f w p q = go (m w) p
    where
      go :
          (r : Result Fault A × World)
          → Kept n w.acts r.1.acts
          → Kept (n + k) w.acts (go_on r f).1.acts
      go (ok a, v) h = Kept-trans n k w.acts v.acts (f a v).1.acts h (q a v)
      go (err e, v) h = Kept-le n (n + k) w.acts v.acts (omega arith) h

module _ (config : WatchdogConfig) (ports : Ports) (linked : Option String) where
  abbrev pub KeptHere : ℕ → World → World → Type 0
  KeptHere n u v = Kept config.watched_agent_id linked n u.acts v.acts

  pub post-Kept : (body : Comment) (w : World) → KeptHere 0 w (post config ports body w).1
  unfolding post
  post-Kept body w = elim (Option-cases config.watchdog_issue_id) [
    | inl missing ↦ rw missing (Kept-same _ _ w.acts)
    | inr (issue, there) ↦ elim (Bool-cases (ports.posts w.acts)) [
      | inl accepted ↦ rw (there, accepted) (act-Kept _ _ (commented issue body) w.acts tt)
      | inr refused ↦ rw (there, refused) (Kept-same _ _ w.acts)
    ]
  ]

  escalate-Kept :
      (verdict : RunVerdict) (reason : EscalationReason) (w : World)
      → KeptHere 0 w (escalate config ports verdict reason w).1
  unfolding escalate escalate_on
  escalate-Kept verdict reason w = answered (ports.approves w.acts)
    where
      answered :
          (a : Option (Option String))
          → KeptHere 0 w (escalate_on config ports verdict reason a w).1
      answered none = Kept-same _ _ w.acts
      answered (some approval) = act-Kept _ _ (opened _ reason) w.acts tt

  pub call_board-Kept :
      (verdict : RunVerdict) (attempts : ℕ) (reason : EscalationReason) (w : World)
      → KeptHere 0 w (call_board config ports verdict attempts reason w).1
  unfolding call_board
  call_board-Kept verdict attempts reason w =
      bind-Kept _ _ 0 0 (escalate config ports verdict reason) _ w (escalate-Kept verdict reason w)
        (λ approval v.
          bind-Kept _ _ 0 0 (post config ports _) _ v (post-Kept _ v) (λ u x. Kept-same _ _ x.acts))

  back_off-Kept :
      (seconds : Option ℕ) (attempt : ℕ) (w : World) → KeptHere 0 w (back_off seconds attempt w).1
  unfolding back_off
  back_off-Kept none attempt w = Kept-same _ _ w.acts
  back_off-Kept (some seconds) attempt w = elim (Bool-cases (seconds == 0)) [
    | inl at_once ↦ rw at_once (Kept-same _ _ w.acts)
    | inr wait ↦ rw wait (act-Kept _ _ (slept seconds) w.acts tt)
  ]

  release_linked-Kept :
      (owner : String) (w : World)
      → (owner == config.watched_agent_id) ≡ false
      → KeptHere 0 w (release_linked config ports linked owner w).1
  unfolding release_linked
  release_linked-Kept owner w h = released_case linked refl
    where
      answered :
          (issue : String) (a : Answer)
          → linked ≡ some issue
          → KeptHere 0 w (release_on issue owner a w).1
      answered issue done e = unfold release_on in act-Kept _ _ (released issue owner) w.acts (h, e)
      answered issue forbidden e = unfold release_on in Kept-same _ _ w.acts
      answered issue failed e = unfold release_on in Kept-same _ _ w.acts

      released_case :
          (l : Option String) → linked ≡ l → KeptHere 0 w (release_linked config ports l owner w).1
      released_case none e = Kept-same _ _ w.acts
      released_case (some issue) e = answered issue (ports.release w.acts issue owner) e

  invoke-Kept : (w : World) → KeptHere 1 w (invoke config ports w).1
  unfolding invoke
  invoke-Kept w = elim (Bool-cases (ports.invokes w.acts)) [
    | inl accepted ↦ rw accepted (act-Kept _ _ (invoked config.watched_agent_id) w.acts tt)
    | inr raised ↦ rw raised (Kept-le _ _ 0 1 w.acts w.acts (omega arith) (Kept-same _ _ w.acts))
  ]

  settle-Kept :
      (attempt : ℕ) (b : Bool) (v : RunVerdict) (w : World) → KeptHere 0 w (settle attempt b v w).1
  unfolding settle
  settle-Kept attempt true v w = Kept-same _ _ w.acts
  settle-Kept attempt false v w = Kept-same _ _ w.acts

  redetect-Kept :
      (current : RunVerdict) (attempt : ℕ) (probe : LivenessProbe) (now : ℕ) (w : World)
      → KeptHere 0 w (redetect config ports current attempt probe now w).1
  unfolding redetect classify_probe
  redetect-Kept current attempt probe now w = elim (Option-cases probe.run) [
    | inl cleared ↦ rw cleared (settle-Kept attempt true current w)
    | inr (run, there) ↦ elim (Bool-cases probe.linked_issue_is_terminal) [
      | inl terminal ↦ rw (there, terminal) (settle-Kept attempt true current w)
      | inr open_issue ↦ rw (there, open_issue) (settle-Kept attempt _ _ w)
    ]
  ]

  proceed-Kept :
      (current : RunVerdict) (attempt : ℕ) (going : Bool) (w : World)
      → KeptHere 1 w (proceed config ports current attempt going w).1
  unfolding proceed look_again
  proceed-Kept current attempt true w =
      bind-Kept _ _ 1 0 (λ v. (invoke config ports >> act (slept config.admit_wait_seconds)) v)
        (λ u. look_again config ports current attempt) w
        (bind-Kept _ _ 1 0 (invoke config ports) (λ u. act (slept config.admit_wait_seconds)) w
          (invoke-Kept w) (λ u x. act-Kept _ _ (slept config.admit_wait_seconds) x.acts tt))
        (λ t y. redetect-Kept current attempt (ports.probe y.acts) (ports.clock y.acts) y)
  proceed-Kept current attempt false w =
      Kept-le _ _ 0 1 w.acts w.acts (omega arith) (Kept-same _ _ w.acts)

  pub attempt_once-Kept :
      (owner : String) (current : RunVerdict) (attempt : ℕ) (backoff : Option ℕ) (w : World)
      → (owner == config.watched_agent_id) ≡ false
      → KeptHere 1 w (attempt_once config ports owner linked current attempt backoff w).1
  unfolding attempt_once
  attempt_once-Kept owner current attempt backoff w h =
      bind-Kept _ _ 0 1 (back_off backoff attempt)
        (λ u. release_linked config ports linked owner >>= proceed config ports current attempt) w
        (back_off-Kept backoff attempt w)
        (λ u v.
          bind-Kept _ _ 0 1 (release_linked config ports linked owner)
            (proceed config ports current attempt) v (release_linked-Kept owner v h)
            (proceed-Kept current attempt))
