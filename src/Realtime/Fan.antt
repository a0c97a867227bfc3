-- ===== src/Realtime/Fan.antt =====
-- The rooms that a bulk event is told to.
use flock_os.Realtime.Routes.{
  target_shards, count_of, bulk_emissions, route_bulk_attendance, route, publish_each,
  publish_routed, project,
}
use flock_os.Realtime.{
  DomainEvent, RealtimeEmission, Runtime, text, get, all_shards, shard_for, attendee_refs,
  gathering_id, to_shards, count_tick, rt_attendance_presence,
}
use flock_os.Base.{
  ℕ, ◌<◌, ◌≡◌, refl, sym, ap, ◌∙◌, String, string_eq, ◌==◌, Bool, Bool-cases, Option-cases, true,
  false, ◌⊎◌, inl, inr, List, [], ◌∷◌, ◌++◌, append-nil, append_assoc, Option, some, All, contains,
  filter, nat_eq, arith,
}
use flock_os.Realtime.Shards.{
  Ascending, shards_for-Ascending, shards_for-within, contains-shards_for, shards_for-listed,
  range_from-below, range_from-Ascending, contains-range_from,
}

-- What a bulk event goes to: one emission for each of some shards and one for the shared room. The
-- shards are of the room and each is told once; they are exactly those of the listed attendees, and if
-- none is listed all shards.
pub record IsFanned (py : Runtime) (shard_count : ℕ) (event : DomainEvent) (event_id : String)
    (emissions : List RealtimeEmission) : Type 0 where
  pub shards : List ℕ
  pub count : ℕ
  pub counted : count_of py event ≡ some count
  pub told :
      emissions
      ≡ to_shards py rt_attendance_presence
          (("gathering", text event_id) ∷ ("batch_id", get "batch_id" event.payload) ∷ [])
          event_id
          shards
        ++ count_tick py event event_id count ∷ []
  pub each_once : Ascending shards
  pub in_room : All (λ k. k < shard_count) shards
  pub listeners :
      (ref : String)
      → contains (attendee_refs py event) ref ≡ true
      → contains shards (shard_for py ref shard_count) ≡ true
  pub listeners_only :
      (k : ℕ)
      → contains shards k ≡ true
      → (attendee_refs py event ≡ [])
        ⊎ ((ref : String) × (contains (attendee_refs py event) ref ≡ true)
            × (shard_for py ref shard_count ≡ k))
  pub whole_room :
      attendee_refs py event ≡ [] → (k : ℕ) → k < shard_count → contains shards k ≡ true

some_injective :
    {a b : List RealtimeEmission}
    → ◌≡◌ {A = Option (List RealtimeEmission)} (some a) (some b)
    → a ≡ b
some_injective h = cc

module _ (py : Runtime) (shard_count : ℕ) (some_shard : 0 < shard_count) where
  -- The shards that are chosen for the listed attendees.
  record IsChosen (refs : List String) (shards : List ℕ) : Type 0 where
    each_once : Ascending shards
    in_room : All (λ k. k < shard_count) shards
    listeners :
        (ref : String)
        → contains refs ref ≡ true
        → contains shards (shard_for py ref shard_count) ≡ true
    listeners_only :
        (k : ℕ)
        → contains shards k ≡ true
        → (refs ≡ [])
          ⊎ ((ref : String) × (contains refs ref ≡ true) × (shard_for py ref shard_count ≡ k))
    whole_room : refs ≡ [] → (k : ℕ) → k < shard_count → contains shards k ≡ true

  target_shards-IsChosen : (refs : List String) → IsChosen refs (target_shards py shard_count refs)
  unfolding target_shards all_shards
  target_shards-IsChosen [] = record {
    each_once = range_from-Ascending 0 shard_count;
    in_room = range_from-below shard_count 0 shard_count (omega arith);
    listeners = λ ref h. cc;
    listeners_only = λ k h. inl refl;
    whole_room = λ h k lt. contains-range_from 0 shard_count k (omega arith) (omega (arith, lt));
  }
  target_shards-IsChosen (ref ∷ refs) = record {
    each_once = shards_for-Ascending py shard_count (ref ∷ refs);
    in_room = shards_for-within py shard_count some_shard (ref ∷ refs);
    listeners = contains-shards_for py shard_count (ref ∷ refs);
    listeners_only = λ k h. inr (shards_for-listed py shard_count (ref ∷ refs) k h);
    whole_room = λ h k lt. absurd (cc h);
  }

  route_bulk_attendance-IsFanned :
      (event : DomainEvent) (event_id : String) (emissions : List RealtimeEmission)
      → (event_id == "") ≡ false
      → route_bulk_attendance py shard_count event (some event_id) ≡ some emissions
      → IsFanned py shard_count event event_id emissions
  unfolding route_bulk_attendance bulk_emissions
  route_bulk_attendance-IsFanned event event_id emissions named h =
      let chosen = target_shards-IsChosen (attendee_refs py event) in
      let made : bulk_emissions py shard_count event event_id (count_of py event) ≡ some emissions =
        sym (rw named refl) ∙ h in
      elim (Option-cases (count_of py event)) [
        | inl raised ↦
            absurd (cc (sym made ∙ ap (λ c. bulk_emissions py shard_count event event_id c) raised))
        | inr (count, counted) ↦ record {
          shards = target_shards py shard_count (attendee_refs py event);
          count = count;
          counted = counted;
          told =
              some_injective
                (sym made ∙ ap (λ c. bulk_emissions py shard_count event event_id c) counted);
          each_once = chosen.each_once;
          in_room = chosen.in_room;
          listeners = chosen.listeners;
          listeners_only = chosen.listeners_only;
          whole_room = chosen.whole_room;
        }
      ]

  -- The publisher's record after a fan-out.
  publish_each-filter :
      (reaches : String → Bool) (emissions calls : List RealtimeEmission)
      → publish_each py reaches emissions calls ≡ calls ++ filter (λ e. reaches e.room) emissions
  unfolding publish_each
  publish_each-filter reaches [] calls = sym (append-nil calls)
  publish_each-filter reaches (emission ∷ emissions) calls =
      elim (Bool-cases (reaches emission.room)) [
        | inl reached ↦
            rw reached (publish_each-filter reaches emissions _ ∙ append_assoc calls _ _)
        | inr lost ↦ rw lost (publish_each-filter reaches emissions calls)
      ]

  -- A bulk event with a gathering, projected to a room of at least one shard without an exception,
  -- tells each of some shards of the room once, and the shared room: exactly the shards of the
  -- attendees that it lists, or all shards if it lists none; the rooms that the publisher reaches get
  -- it in this order.
  pub project-IsFanned :
      (reaches : String → Bool) (event : DomainEvent) (event_id : String)
      (emissions calls : List RealtimeEmission)
      → event.name ≡ "flock.attendance.bulk_recorded"
      → gathering_id py event ≡ some event_id
      → (event_id == "") ≡ false
      → (project py shard_count reaches event calls).0 ≡ some emissions
      → IsFanned py shard_count event event_id emissions
        × ((project py shard_count reaches event calls).1
            ≡ calls ++ filter (λ e. reaches e.room) emissions)
  unfolding project publish_routed
  project-IsFanned reaches event event_id emissions calls named found nonempty h =
      let routed : route py shard_count event
          ≡ some (route_bulk_attendance py shard_count event (some event_id)) =
        (unfold route in rw (named, found) refl) in
      elim (Option-cases (route_bulk_attendance py shard_count event (some event_id))) [
        | inl raised ↦
            let ran =
              ap (λ r. publish_routed py reaches r calls) (routed ∙ ap (λ r. some r) raised) in
            absurd (cc (sym h ∙ ap (λ p. p.0) ran))
        | inr (sent, made) ↦
            let ran =
              ap (λ r. publish_routed py reaches r calls) (routed ∙ ap (λ r. some r) made) in
            let same : sent ≡ emissions = some_injective (sym (ap (λ p. p.0) ran) ∙ h) in
            (
              route_bulk_attendance-IsFanned event event_id emissions nonempty
                  (made ∙ ap (λ l. some l) same),
              ap (λ p. p.1) ran
                  ∙ publish_each-filter reaches sent calls
                  ∙ ap (λ l. calls ++ filter (λ e. reaches e.room) l) same,
            )
      ]
