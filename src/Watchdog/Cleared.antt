-- ===== src/Watchdog/Cleared.antt =====
-- The steps of a round: what they add to the trace, and what the probe at its end has shown.
use flock_os.Watchdog.Steps.{release_linked, invoke, redetect, classify_probe}
use flock_os.Watchdog.{
  Answer, done, forbidden, failed, release_on, back_off, WatchdogConfig, Ports, World, invoked,
  LivenessProbe, recovered_end, exhausted_end, forbidden_end, Round, ends, goes_on, settle,
  back_off,
}
use flock_os.CeoHeartbeat.{HeartbeatRun, is_superseded_by_newer_base_run}
use flock_os.Recovery.{RunVerdict, classify_run}
use flock_os.Base.{
  none, nat_eq, ℕ, ◌≡◌, refl, String, string_eq, nat_eq, ◌==◌, eq_of_beq, Bool, Bool-cases,
  Option-cases, true, false, ◌||◌, ◌⊎◌, inl, inr, [], ◌∷◌, ◌++◌, Option, some,
}
use flock_os.Watchdog.Board.{
  OnOk, IsAdded, IsAdded-same, IsCleared, no_run, terminal, healthy, superseded,
}

-- What holds after a round that ends in a recovery.
abbrev pub IsSeen : Type 0 → Round → Type 0
IsSeen Seen (ends (recovered_end attempts)) = Seen
IsSeen Seen (ends (exhausted_end attempts)) = Unit {0}
IsSeen Seen (ends (forbidden_end attempts)) = Unit {0}
IsSeen Seen (goes_on verdict) = Unit {0}

-- What speaks for a cleared run at the end of the probe.
ahead :
    (healthy_run newer : Bool)
    → (healthy_run || newer) ≡ true
    → (healthy_run ≡ true) ⊎ (newer ≡ true)
ahead true newer h = inl refl
ahead false newer h = inr h

module _ (config : WatchdogConfig) (ports : Ports) where
  settle-IsSeen :
      (Seen : Type 0) (attempt : ℕ) (b : Bool) (verdict : RunVerdict) (w : World)
      → (b ≡ true → Seen)
      → OnOk (λ round v. (v.acts ≡ w.acts) × IsSeen Seen round) (settle attempt b verdict w)
  unfolding settle
  settle-IsSeen Seen attempt true verdict w h = (refl, h refl)
  settle-IsSeen Seen attempt false verdict w h = (refl, tt)

  -- The verdict on the run of a probe.
  abbrev verdict_on : HeartbeatRun → LivenessProbe → ℕ → Bool → RunVerdict
  verdict_on run probe now finished =
      classify_run run now config.watched_agent_id probe.chain config.thresholds
        (record {
          linked_issue_is_terminal = finished;
          superseded_by_newer_base_run = is_superseded_by_newer_base_run run probe.all_runs;
          successful_run_missing_disposition = probe.successful_run_missing_disposition;
        })
        config.ceo_fallback_owner_id

  classify_probe-judged :
      (run : HeartbeatRun) (probe : LivenessProbe) (now : ℕ) (finished : Bool)
      → probe.run ≡ some run
      → probe.linked_issue_is_terminal ≡ finished
      → classify_probe config ports probe now ≡ some (verdict_on run probe now finished)
  unfolding classify_probe
  classify_probe-judged run probe now finished there is = rw (there, is) refl

  pub redetect-IsSeen :
      (Seen : Type 0) (current : RunVerdict) (attempt : ℕ) (probe : LivenessProbe) (now : ℕ)
      (w : World)
      → (IsCleared config ports probe now → Seen)
      → OnOk
          (λ round v. (v.acts ≡ w.acts) × IsSeen Seen round)
          (redetect config ports current attempt probe now w)
  unfolding redetect classify_probe
  redetect-IsSeen Seen current attempt probe now w seen = elim (Option-cases probe.run) [
    | inl cleared ↦
        let is = seen (no_run cleared) in
        rw cleared (settle-IsSeen Seen attempt true current w (λ t. is))
    | inr (run, there) ↦ elim (Bool-cases probe.linked_issue_is_terminal) [
      | inl finished ↦
          let is = seen (terminal finished) in
          rw (there, finished) (settle-IsSeen Seen attempt true current w (λ t. is))
      | inr open_issue ↦
          let verdict = verdict_on run probe now false in
          let is : (verdict.verdict == "healthy"
                  || is_superseded_by_newer_base_run run probe.all_runs)
                ≡ true
              → Seen =
            λ t.
              elim (ahead (verdict.verdict == "healthy")
                (is_superseded_by_newer_base_run run probe.all_runs) t) [
                  | inl fine ↦ seen (
                      healthy verdict (classify_probe-judged run probe now false there open_issue)
                        (eq_of_beq fine))
                  | inr newer ↦ seen (superseded run there newer)
                ] in
          rw (there, open_issue)
            (settle-IsSeen Seen attempt
              (verdict.verdict == "healthy" || is_superseded_by_newer_base_run run probe.all_runs)
              verdict w is)
    ]
  ]

  pub invoke-invoked :
      (w : World)
      → OnOk
          (λ u v. v.acts ≡ w.acts ++ invoked config.watched_agent_id ∷ [])
          (invoke config ports w)
  unfolding invoke
  invoke-invoked w = elim (Bool-cases (ports.invokes w.acts)) [
    | inl accepted ↦ rw accepted refl
    | inr raised ↦ rw raised tt
  ]

  pub back_off-IsAdded :
      (seconds : Option ℕ) (attempt : ℕ) (w : World)
      → OnOk (λ u v. IsAdded w.acts v.acts) (back_off seconds attempt w)
  unfolding back_off
  back_off-IsAdded none attempt w = IsAdded-same w.acts
  back_off-IsAdded (some seconds) attempt w = elim (Bool-cases (seconds == 0)) [
    | inl at_once ↦ rw at_once (IsAdded-same w.acts)
    | inr wait ↦ rw wait (_, refl)
  ]

  pub release_linked-IsAdded :
      (linked : Option String) (owner : String) (w : World)
      → OnOk (λ u v. IsAdded w.acts v.acts) (release_linked config ports linked owner w)
  unfolding release_linked
  release_linked-IsAdded none owner w = IsAdded-same w.acts
  release_linked-IsAdded (some issue) owner w = answered (ports.release w.acts issue owner)
    where
      answered : (a : Answer) → OnOk (λ u v. IsAdded w.acts v.acts) (release_on issue owner a w)
      answered done = unfold release_on in (_, refl)
      answered forbidden = unfold release_on in IsAdded-same w.acts
      answered failed = unfold release_on in tt
