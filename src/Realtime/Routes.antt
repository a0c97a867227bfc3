-- ===== src/Realtime/Routes.antt =====
-- The routes of flock_os/realtime.py: what the projector makes of an event and publishes.
use flock_os.Realtime.{
  DomainEvent, RealtimeEmission, Runtime, text, holds, get, or_else, str_of, extra, all_shards,
  shard_for, shards_for, attendee_refs, gathering_id, to_shards, count_tick, presence_message,
  broadcast_channel, rt_attendance_presence, rt_game_state, rt_notification,
}
use flock_os.Base.{
  ℕ, String, string_eq, ◌==◌, Bool, List, [], ◌∷◌, ◌++◌, Option, none, some, contains,
  if◌then◌else◌,
}

module _ (py : Runtime) where
  -- `_route_single_attendance`, for the gathering that is found.
  unfoldable pub route_single_attendance : ℕ → DomainEvent → Option String → List RealtimeEmission
  unfolding shard_for extra presence_message
  route_single_attendance shard_count event none = []
  route_single_attendance shard_count event (some event_id) =
      let found = or_else (get "member" event.payload) (get "attendee_ref" event.payload) in
      let member = if holds found then str_of py found else "" in
      let tick = count_tick py event event_id 1 ∷ [] in
      if event_id == ""
      then []
      else if member == ""
      then tick
      else to_shards py rt_attendance_presence
          (("gathering", text event_id) ∷ ("member", text member) ∷ extra event) event_id
          (shard_for py member shard_count ∷ [])
        ++ tick

  -- `int(event.payload.get("count", 0) or 0)`
  abbrev pub count_of : DomainEvent → Option ℕ
  count_of event =
      if holds (get "count" event.payload) then py.int (get "count" event.payload) else some 0

  -- The shards of a bulk event: those of its attendees, or all.
  unfoldable pub target_shards : ℕ → List String → List ℕ
  unfolding shards_for all_shards
  target_shards shard_count [] = all_shards shard_count
  target_shards shard_count (ref ∷ refs) = shards_for py (ref ∷ refs) shard_count

  -- The emissions of a bulk event, by its count; none where `int` raises.
  unfoldable pub bulk_emissions :
      ℕ → DomainEvent → String → Option ℕ → Option (List RealtimeEmission)
  unfolding attendee_refs target_shards presence_message
  bulk_emissions shard_count event event_id none = none
  bulk_emissions shard_count event event_id (some count) =
      let message =
        ("gathering", text event_id) ∷ ("batch_id", get "batch_id" event.payload) ∷ [] in
      let shards = target_shards shard_count (attendee_refs py event) in
      some (
        to_shards py rt_attendance_presence message event_id shards
        ++ count_tick py event event_id count ∷ [])

  -- `_route_bulk_attendance`, for the gathering that is found.
  unfoldable pub route_bulk_attendance :
      ℕ → DomainEvent → Option String → Option (List RealtimeEmission)
  unfolding bulk_emissions
  route_bulk_attendance shard_count event none = some []
  route_bulk_attendance shard_count event (some event_id) =
      if event_id == "" then some [] else bulk_emissions shard_count event event_id (count_of event)

  -- `_route_game_lifecycle`
  unfoldable pub route_game_lifecycle : ℕ → DomainEvent → Option String → List RealtimeEmission
  unfolding all_shards extra
  route_game_lifecycle shard_count event none = []
  route_game_lifecycle shard_count event (some event_id) =
      let state = if event.name == "flock.engagement.opened" then "opened" else "closed" in
      let message = ("gathering", text event_id) ∷ ("state", text state) ∷ extra event in
      if event_id == ""
      then []
      else to_shards py rt_game_state message event_id (all_shards shard_count)
        ++ (record {
          realtime_event = rt_game_state;
          room = broadcast_channel event_id;
          message = message;
        })
          ∷ []

  -- `_route_broadcast_only`
  unfoldable pub route_broadcast_only : String → DomainEvent → Option String → List RealtimeEmission
  unfolding extra
  route_broadcast_only realtime_event event none = []
  route_broadcast_only realtime_event event (some event_id) =
      if event_id == ""
      then []
      else (record {
        realtime_event = realtime_event;
        room = broadcast_channel event_id;
        message = ("gathering", text event_id) ∷ extra event;
      })
        ∷ []

  -- The routing table of the projector: the handler of a name, run on the event. None where the name has
  -- no handler; the inner none where the handler raises.
  unfoldable pub route : ℕ → DomainEvent → Option (Option (List RealtimeEmission))
  unfolding gathering_id route_single_attendance route_bulk_attendance route_game_lifecycle
      route_broadcast_only
  route shard_count event =
      let found = gathering_id py event in
      if event.name == "flock.attendance.recorded"
      then some (some (route_single_attendance shard_count event found))
      else if event.name == "flock.attendance.bulk_recorded"
      then some (route_bulk_attendance shard_count event found)
      else if contains ("flock.engagement.opened" ∷ "flock.engagement.closed" ∷ []) event.name
      then some (some (route_game_lifecycle shard_count event found))
      else if contains
          ("flock.notification.sent" ∷ "flock.announcement.scheduled" ∷ "flock.gathering.approved"
            ∷ [])
          event.name
      then some (some (route_broadcast_only rt_notification event found))
      else none

  -- The loop of `project`; what the publisher raises for a room is dropped.
  unfoldable pub publish_each :
      (String → Bool) → List RealtimeEmission → List RealtimeEmission → List RealtimeEmission
  publish_each reaches [] calls = calls
  publish_each reaches (emission ∷ emissions) calls =
      publish_each reaches emissions
        (if reaches emission.room then calls ++ emission ∷ [] else calls)

  -- `project`, by what the handler gives, over the calls that the publisher has recorded.
  unfoldable pub publish_routed :
      (String → Bool)
      → Option (Option (List RealtimeEmission))
      → List RealtimeEmission
      → Option (List RealtimeEmission) × List RealtimeEmission
  unfolding publish_each
  publish_routed reaches none calls = (some [], calls)
  publish_routed reaches (some none) calls = (none, calls)
  publish_routed reaches (some (some emissions)) calls =
      (some emissions, publish_each reaches emissions calls)

  unfoldable pub project :
      ℕ
      → (String → Bool)
      → DomainEvent
      → List RealtimeEmission
      → Option (List RealtimeEmission) × List RealtimeEmission
  unfolding route publish_routed
  project shard_count reaches event calls = publish_routed reaches (route shard_count event) calls
