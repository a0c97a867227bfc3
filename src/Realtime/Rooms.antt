-- ===== src/Realtime/Rooms.antt =====
-- The name of a room, read back by the pattern of flock_os/realtime.py, and the gate of a client that wants to
-- join it. Which characters are decimal digits is a parameter.
use Prim.Native.Char.{Char, code}
use Prim.Native.String.{String, [], ◌∷◌}
use flock_os.Permissions.{PermissionGateway, can_access_branch}
use flock_os.Base.{ℕ, ◌+◌, ◌*◌, Bool, true, false, Option, none, some, nat_beq, if◌then◌else◌}

pub record EventRoomRef : Type 0 where
  pub event_id : String
  pub is_broadcast : Bool
  pub shard : Option ℕ

-- The rest of a text after a literal of the pattern.
unfoldable pub after_literal : String → String → Option String
after_literal [] s = some s
after_literal (c ∷ p) [] = none
after_literal (c ∷ p) (d ∷ s) =
    let rest = after_literal p s in if nat_beq (code c) (code d) then rest else none

-- `$`: the end of the text, or a line feed that ends it.
abbrev pub at_end : String → Bool
at_end [] = true
at_end (c ∷ []) = nat_beq (code c) 10
at_end (c ∷ d ∷ s) = false

-- `EVENT_ROOM_RE` and `int`, by the decimal digit that a character is, if it is one.
module _ (digit : Char → Option ℕ) where
  -- More digits of a number, to the end.
  unfoldable pub digits_to_end : ℕ → String → Option ℕ
  digits_to_end n [] = some n
  digits_to_end n (c ∷ s) = elim (digit c) [
    | none ↦ if at_end (c ∷ s) then some n else none
    | some d ↦ digits_to_end (n * 10 + d) s
  ]

  -- `\d+$`
  unfoldable pub number_to_end : String → Option ℕ
  unfolding digits_to_end
  number_to_end [] = none
  number_to_end (c ∷ s) = elim (digit c) [ none ↦ none | some d ↦ digits_to_end d s ]

  -- The segment after the event: the shared room, or a shard.
  unfoldable pub segment : String → Option (Option ℕ)
  unfolding after_literal number_to_end
  segment s = elim (after_literal ":broadcast" s) [
    | some rest ↦ if at_end rest then some none else none
    | none ↦ elim (after_literal ":shard:" s) [
      | none ↦ none
      | some rest ↦ elim (number_to_end rest) [ none ↦ none | some n ↦ some (some n) ]
    ]
  ]

  -- `.+?`: the shortest event, of at least the character at hand, that a segment follows.
  unfoldable pub shortest : String → Option (String × Option ℕ)
  unfolding segment
  shortest [] = none
  shortest (c ∷ s) =
      let more = shortest s in
      if nat_beq (code c) 10 then none else elim (segment s) [
        | some found ↦ some (c ∷ [], found)
        | none ↦ elim more [ none ↦ none | some rest ↦ some (c ∷ rest.0, rest.1) ]
      ]

  unfoldable pub parse_event_room : String → Option EventRoomRef
  unfolding after_literal shortest
  parse_event_room room = elim (after_literal "flock_os:event:" room) [
    | none ↦ none
    | some rest ↦ elim (shortest rest) [
      | none ↦ none
      | some (event_id, none) ↦
          some (record { event_id = event_id; is_broadcast = true; shard = none })
      | some (event_id, some k) ↦
          some (record { event_id = event_id; is_broadcast = false; shard = some k })
    ]
  ]

-- The end of the gate, by the branch of the gathering.
unfoldable pub branch_admits : String → PermissionGateway → Option String → Bool
unfolding can_access_branch
branch_admits user gateway none = false
branch_admits user gateway (some branch) =
    can_access_branch (some branch) (gateway.list_branch_user_permissions user)
      (gateway.get_user_roles user)

-- The gate of a parsed room.
unfoldable pub room_admits :
    String → PermissionGateway → (String → Option String) → Option EventRoomRef → Bool
unfolding branch_admits
room_admits user gateway branch_for_gathering none = false
room_admits user gateway branch_for_gathering (some ref) =
    branch_admits user gateway (branch_for_gathering ref.event_id)

-- `event_room_join_allowed`, by the gateway of the permissions and the branches of the gatherings.
unfoldable pub event_room_join_allowed :
    (Char → Option ℕ) → String → String → PermissionGateway → (String → Option String) → Bool
unfolding parse_event_room room_admits
event_room_join_allowed digit room user gateway branch_for_gathering =
    room_admits user gateway branch_for_gathering (parse_event_room digit room)
