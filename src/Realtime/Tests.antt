-- ===== src/Realtime/Tests.antt =====
-- A bulk event of two attendees, two rooms, and the theorems at them.
use Prim.Native.Char.{Char, code}
use flock_os.Realtime.Routes.{project}
use flock_os.Realtime.{
  Value, DomainEvent, RealtimeEmission, Runtime, text, texts, number, count_tick, to_shards,
  rt_attendance_presence, gathering_id,
}
use flock_os.Realtime.Rooms.{parse_event_room}
use flock_os.Realtime.Fan.{IsFanned, project-IsFanned}
use flock_os.Base.{
  ℕ, ◌-◌, ◌≡◌, refl, String, string_eq, ◌==◌, Bool, true, false, ◌&&◌, List, [], ◌∷◌, ◌++◌, filter,
  none, some, Option, leb, if◌then◌else◌, arith,
}

-- A checksum of two values, and a printing of the first numbers.
abbrev py : Runtime
py = record {
  crc32 = λ s. if s == "ann" then 7 else 12;
  decimal = λ n. if leb n 4 then "few" else "many";
  str = λ v. "?";
  int = λ v. some 2;
}

abbrev event : DomainEvent
event = record {
  name = "flock.attendance.bulk_recorded";
  payload =
      ("gathering", text "g1")
      ∷ ("count", number 2)
      ∷ ("attendees", texts ("bob" ∷ "ann" ∷ []))
      ∷ [];
  scope = [];
}

abbrev emissions : List RealtimeEmission
emissions =
    to_shards py rt_attendance_presence (("gathering", text "g1") ∷ ("batch_id", Value.null) ∷ [])
      "g1" (2 ∷ 7 ∷ [])
    ++ count_tick py event "g1" 2 ∷ []

abbrev reaches : String → Bool
reaches room = room == "flock_os:event:g1:broadcast"

fanned : (project py 10 reaches event []).0 ≡ some emissions
unfolding project
fanned = refl

of_gathering : gathering_id py event ≡ some "g1"
unfolding gathering_id
of_gathering = refl

project-IsFanned_example :
    IsFanned py 10 event "g1" emissions
    × ((project py 10 reaches event []).1 ≡ [] ++ filter (λ e. reaches e.room) emissions)
project-IsFanned_example =
    project-IsFanned py 10 (omega arith) reaches event "g1" emissions [] refl of_gathering refl
      fanned

abbrev digit : Char → Option ℕ
digit c = if leb 48 (code c) && leb (code c) 57 then some (code c - 48) else none

shared :
    parse_event_room digit "flock_os:event:g1:broadcast"
    ≡ some (record { event_id = "g1"; is_broadcast = true; shard = none })
unfolding parse_event_room
shared = refl

of_shard :
    parse_event_room digit "flock_os:event:g:1:shard:12"
    ≡ some (record { event_id = "g:1"; is_broadcast = false; shard = some 12 })
unfolding parse_event_room
of_shard = refl

foreign : parse_event_room digit "flock_os:event:g1:shard:x" ≡ none
unfolding parse_event_room
foreign = refl
