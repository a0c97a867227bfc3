-- ===== src/Watchdog/Recovered.antt =====
-- A loop that ends in a recovery has restarted the agent and seen the run cleared.
use flock_os.Watchdog.Steps.{
  plan_for, release_linked, invoke, look_again, proceed, attempt_once, restart_loop,
}
use flock_os.Watchdog.{
  Act, back_off, WatchdogConfig, Ports, World, Fire, Fault, act, invoked, slept, LoopEnd,
  recovered_end, exhausted_end, forbidden_end, Round, ends, goes_on, follow, back_off,
}
use flock_os.Recovery.{RunVerdict}
use flock_os.Base.Stateful.{◌>>=◌, ◌>>◌}
use flock_os.Base.{
  List, append_assoc, nat_eq, ℕ, zero, suc, ◌≡◌, sym, ap, subst, ◌∙◌, String, string_eq, nat_eq,
  ◌==◌, Bool, Bool-cases, true, false, inl, inr, [], ◌∷◌, ◌++◌, append-nil, Option, Result, ok, err,
}
use flock_os.Watchdog.Board.{
  OnOk, bind-OnOk, IsAdded, IsAdded-trans, IsCleared, restarted, IsRecovered,
}
use flock_os.Watchdog.Cleared.{
  IsSeen, redetect-IsSeen, invoke-invoked, back_off-IsAdded, release_linked-IsAdded,
}

-- From the acts at the start of a fire on.
module _ (config : WatchdogConfig) (ports : Ports) (start : List Act) where
  -- Acts are added only, and a recovery has been seen.
  abbrev pub IsOn : Round → World → Type 0
  IsOn round v = IsAdded start v.acts × IsSeen (IsRecovered config ports start v.acts) round

  -- Whatever a round does before, it ends in a recovery only after a restart and a probe.
  proceed-IsRecovered :
      (current : RunVerdict) (attempt : ℕ) (going : Bool) (w : World)
      → IsAdded start w.acts
      → OnOk (λ round v. IsOn round v) (proceed config ports current attempt going w)
  unfolding proceed look_again
  proceed-IsRecovered current attempt false w inside = (inside, tt)
  proceed-IsRecovered current attempt true w inside =
      bind-OnOk (λ u v. v.acts ≡ restarted config ports w.acts) (λ round v. IsOn round v)
        (invoke config ports >> act (slept config.admit_wait_seconds))
        (λ u. look_again config ports current attempt) w
        (bind-OnOk (λ u v. v.acts ≡ w.acts ++ invoked config.watched_agent_id ∷ [])
          (λ u v. v.acts ≡ restarted config ports w.acts) (invoke config ports)
          (λ u. act (slept config.admit_wait_seconds)) w (invoke-invoked config ports w)
          (λ u v t. ap (λ l. l ++ slept config.admit_wait_seconds ∷ []) t))
        (λ u v there. looked v there)
    where
      seen_on :
          (v x : World) (round : Round)
          → v.acts ≡ restarted config ports w.acts
          → x.acts ≡ restarted config ports w.acts
          → IsSeen (IsCleared config ports (ports.probe v.acts) (ports.clock v.acts)) round
          → IsSeen (IsRecovered config ports start x.acts) round
      seen_on v x (ends (recovered_end attempts)) there same h = record {
        before = w.acts;
        back = [];
        in_fire = inside;
        trace = same ∙ sym (append-nil (restarted config ports w.acts));
        cleared = subst (λ l. IsCleared config ports (ports.probe l) (ports.clock l)) there h;
      }
      seen_on v x (ends (exhausted_end attempts)) there same h = tt
      seen_on v x (ends (forbidden_end attempts)) there same h = tt
      seen_on v x (goes_on verdict) there same h = tt

      seen_in :
          (v x : World) (round : Round)
          → v.acts ≡ restarted config ports w.acts
          → (x.acts ≡ v.acts)
            × IsSeen (IsCleared config ports (ports.probe v.acts) (ports.clock v.acts)) round
          → IsOn round x
      seen_in v x round there h =
          let same = h.0 ∙ there in
          let more =
            IsAdded-trans start w.acts x.acts inside
              (_, same ∙ append_assoc w.acts (_ ∷ []) (_ ∷ [])) in
          (more, seen_on v x round there same h.1)

      at_end :
          (v : World)
          → v.acts ≡ restarted config ports w.acts
          → (r : Result Fault Round × World)
          → OnOk
              (λ round x.
                (x.acts ≡ v.acts)
                × IsSeen (IsCleared config ports (ports.probe v.acts) (ports.clock v.acts)) round)
              r
          → OnOk (λ round x. IsOn round x) r
      at_end v there (ok round, x) h = seen_in v x round there h
      at_end v there (err e, x) h = tt

      looked :
          (v : World)
          → v.acts ≡ restarted config ports w.acts
          → OnOk (λ round x. IsOn round x) (look_again config ports current attempt v)
      looked v there = at_end v there _ (
          redetect-IsSeen config ports
            (IsCleared config ports (ports.probe v.acts) (ports.clock v.acts)) current attempt
            (ports.probe v.acts) (ports.clock v.acts) v (λ c. c))

  attempt_once-IsRecovered :
      (owner : String) (linked : Option String) (current : RunVerdict) (attempt : ℕ)
      (backoff : Option ℕ) (w : World)
      → IsAdded start w.acts
      → OnOk
          (λ round v. IsOn round v)
          (attempt_once config ports owner linked current attempt backoff w)
  unfolding attempt_once
  attempt_once-IsRecovered owner linked current attempt backoff w inside =
      bind-OnOk (λ u v. IsAdded w.acts v.acts) (λ round v. IsOn round v) (back_off backoff attempt)
        (λ u. release_linked config ports linked owner >>= proceed config ports current attempt) w
        (back_off-IsAdded config ports backoff attempt w)
        (λ u v t.
          bind-OnOk (λ going x. IsAdded v.acts x.acts) (λ round x. IsOn round x)
            (release_linked config ports linked owner) (proceed config ports current attempt) v
            (release_linked-IsAdded config ports linked owner v)
            (λ going x k.
              proceed-IsRecovered current attempt going x
                (IsAdded-trans start v.acts x.acts (IsAdded-trans start w.acts v.acts inside t) k)))

  follow-IsRecovered :
      (again : RunVerdict → Fire LoopEnd) (round : Round) (v : World)
      → ((verdict : RunVerdict) (u : World)
          → IsAdded start u.acts
          → OnOk (λ end x. IsOn (ends end) x) (again verdict u))
      → IsOn round v
      → OnOk (λ end x. IsOn (ends end) x) (follow again round v)
  follow-IsRecovered again (ends end) v h seen = seen
  follow-IsRecovered again (goes_on verdict) v h seen = h verdict v seen.0

  pub restart_loop-IsRecovered :
      (fuel : ℕ) (owner : String) (linked : Option String) (current : RunVerdict) (attempts : ℕ)
      (w : World)
      → IsAdded start w.acts
      → OnOk
          (λ end v. IsOn (ends end) v)
          (restart_loop config ports fuel owner linked current attempts w)
  unfolding restart_loop
  restart_loop-IsRecovered zero owner linked current attempts w inside = tt
  restart_loop-IsRecovered (suc fuel) owner linked current attempts w inside =
      let again = λ (verdict : RunVerdict).
        restart_loop config ports fuel owner linked verdict (suc attempts) in
      let ih = λ (verdict : RunVerdict) (v : World) (more : IsAdded start v.acts).
        restart_loop-IsRecovered fuel owner linked verdict (suc attempts) v more in
      elim (Bool-cases ((plan_for config ports current attempts).action == "release_restart")) [
        | inl goes ↦ rw goes (
            bind-OnOk (λ round v. IsOn round v) (λ end v. IsOn (ends end) v)
              (attempt_once config ports owner linked current (suc attempts)
                (plan_for config ports current attempts).next_backoff_seconds)
              (follow again) w
              (attempt_once-IsRecovered owner linked current (suc attempts)
                (plan_for config ports current attempts).next_backoff_seconds w inside)
              (λ round v seen. follow-IsRecovered again round v ih seen))
        | inr stays ↦ rw stays (inside, tt)
      ]
