-- ===== src/Realtime.antt =====
-- flock_os/realtime.py: the rooms of an event, and the projector that fans an event out to them. The
-- checksum, Python's `str` and `int` of a value, and the printing of a number are parameters.
pub mod Routes
pub mod Shards
pub mod Fan
pub mod Rooms
pub mod Join
mod Tests
use Prim.Native.String.{◌++◌ as ◌<>◌}
use flock_os.Base.Dict.{lookup}
use flock_os.Base.{
  ℕ, zero, suc, ◌+◌, ◌*◌, ◌%◌, String, string_eq, ◌==◌, Bool, true, false, not, ◌||◌, ◌&&◌, List,
  [], ◌∷◌, ◌++◌, map, Option, none, some, Result, ok, err, ◌>>=◌, contains, filter, length, ltb,
  nat_beq, is_some, if◌then◌else◌,
}

-- A value of a payload, which is read as JSON; a list is one of texts.
pub data Value : Type 0 where
  null : Value
  text : String → Value
  number : ℕ → Value
  flag : Bool → Value
  texts : List String → Value

-- `bool(value)`
abbrev pub holds : Value → Bool
holds null = false
holds (text s) = not (s == "")
holds (number n) = not (nat_beq n 0)
holds (flag b) = b
holds (texts l) = ltb 0 (length l)

abbrev pub Payload : Type 0
Payload = List (String × Value)

-- `payload.get(key)`
abbrev pub get : String → Payload → Value
get key payload = elim (lookup key payload) [ none ↦ null | some v ↦ v ]

-- `a or b`
abbrev pub or_else : Value → Value → Value
or_else a b = if holds a then a else b

pub record DomainEvent : Type 0 where
  pub name : String
  pub payload : Payload
  pub scope : Payload

-- What is told to one room.
pub record RealtimeEmission : Type 0 where
  pub realtime_event : String
  pub room : String
  pub message : Payload

abbrev pub rt_attendance_presence : String
rt_attendance_presence = "flock_os:attendance:presence"

abbrev pub rt_attendance_count : String
rt_attendance_count = "flock_os:attendance:count"

abbrev pub rt_game_state : String
rt_game_state = "flock_os:engagement:state"

abbrev pub rt_notification : String
rt_notification = "flock_os:notification"

abbrev pub event_room_prefix : String
event_room_prefix = "flock_os:event"

unfoldable pub broadcast_channel : String → String
broadcast_channel event_id = event_room_prefix <> ":" <> event_id <> ":broadcast"

-- `range(n)` from a number on.
unfoldable pub range_from : ℕ → ℕ → List ℕ
range_from start zero = []
range_from start (suc n) = start ∷ range_from (suc start) n

unfoldable pub all_shards : ℕ → List ℕ
unfolding range_from
all_shards shard_count = range_from 0 shard_count

-- A member of a sorted set.
unfoldable pub insert_shard : ℕ → List ℕ → List ℕ
insert_shard k [] = k ∷ []
insert_shard k (n ∷ shards) =
    let rest = insert_shard k shards in
    if ltb k n then k ∷ n ∷ shards else if nat_beq k n then n ∷ shards else n ∷ rest

-- `_extra`
abbrev pub structural : List String
structural = "gathering" ∷ "event" ∷ "member" ∷ "attendee_ref" ∷ "count" ∷ "batch_id" ∷ []

unfoldable pub extra : DomainEvent → Payload
extra event = filter (λ (entry : String × Value). not (contains structural entry.0)) event.payload

-- The keys of the payload that hold something.
unfoldable pub present_entries : List String → Payload → Payload
present_entries [] payload = []
present_entries (key ∷ keys) payload =
    let rest = present_entries keys payload in
    if holds (get key payload) then (key, get key payload) ∷ rest else rest

-- `_presence_message`
unfoldable pub presence_message : DomainEvent → ℕ → Payload
unfolding present_entries
presence_message event delta =
    ("delta", number delta)
    ∷ ("source", elim (lookup "source" event.payload) [ none ↦ text "reporting" | some v ↦ v ])
    ∷ present_entries ("gathering" ∷ "branch" ∷ "group" ∷ []) event.payload

-- The parameters: `zlib.crc32` of a text, the number in a shard's room, `str` and `int` of a value; `int`
-- may raise.
pub record Runtime : Type 0 where
  pub crc32 : String → ℕ
  pub decimal : ℕ → String
  pub str : Value → String
  pub int : Value → Option ℕ

module _ (py : Runtime) where
  -- `str(value)`
  abbrev pub str_of : Value → String
  str_of (text s) = s
  str_of null = py.str null
  str_of (number n) = py.str (number n)
  str_of (flag b) = py.str (flag b)
  str_of (texts l) = py.str (texts l)

  unfoldable pub shard_channel : String → ℕ → String
  shard_channel event_id shard =
      event_room_prefix <> ":" <> event_id <> ":shard:" <> py.decimal shard

  unfoldable pub shard_for : String → ℕ → ℕ
  shard_for attendee_ref shard_count = py.crc32 attendee_ref % shard_count

  unfoldable pub shards_for : List String → ℕ → List ℕ
  unfolding shard_for insert_shard
  shards_for [] shard_count = []
  shards_for (ref ∷ refs) shard_count =
      insert_shard (shard_for ref shard_count) (shards_for refs shard_count)

  -- `_gathering_id`
  unfoldable pub gathering_id : DomainEvent → Option String
  gathering_id event =
      let value = or_else (get "gathering" event.payload) (get "gathering" event.scope) in
      let legacy = or_else (get "event" event.payload) (get "event" event.scope) in
      if holds value
      then some (str_of value)
      else if holds legacy
      then some (str_of legacy)
      else none

  -- `_attendee_refs`
  unfoldable pub refs_at : List String → Payload → List String
  refs_at [] payload = []
  refs_at (key ∷ keys) payload = listed (get key payload) ++ refs_at keys payload
    where
      listed : Value → List String
      listed null = []
      listed (text s) = []
      listed (number n) = []
      listed (flag b) = []
      listed (texts l) = filter (λ s. not (s == "")) l

  unfoldable pub attendee_refs : DomainEvent → List String
  unfolding refs_at
  attendee_refs event =
      refs_at ("attendees" ∷ "members" ∷ "players" ∷ "attendee_refs" ∷ []) event.payload

  -- An emission for each of the shards.
  abbrev pub to_shards : String → Payload → String → List ℕ → List RealtimeEmission
  to_shards realtime_event message event_id shards =
      map
        (λ shard. record {
          realtime_event = realtime_event;
          room = shard_channel event_id shard;
          message = message;
        })
        shards

  -- The count of a broadcast.
  abbrev pub count_tick : DomainEvent → String → ℕ → RealtimeEmission
  count_tick event event_id delta = record {
    realtime_event = rt_attendance_count;
    room = broadcast_channel event_id;
    message = presence_message event delta;
  }
