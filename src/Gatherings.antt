-- ===== src/Gatherings.antt =====
-- flock_os/gatherings.py: the lifecycle of a gathering, its branch and its group path.
mod Tests
use Prim.Native.String.{◌++◌ as ◌<>◌}
use flock_os.Base.Dict.{lookup, or_default}
use flock_os.Base.{
  String, string_eq, option_eq, ◌==◌, Bool, true, false, not, List, [], ◌∷◌, ◌++◌, Option, none,
  some, Result, ok, err, guard, ◌>>=◌, ◌>>◌, contains, is_some, if◌then◌else◌,
}

-- `FlockGatheringError`, by the message.
pub data GatheringError : Type 0 where
  new_must_start : String → GatheringError
  illegal_transition : (from_status to_status : String) → GatheringError
  branch_required group_without_branch branch_differs : GatheringError

abbrev pub gathering_statuses : List String
gathering_statuses = "Scheduled" ∷ "Held" ∷ "Reported" ∷ "Confirmed" ∷ "Cancelled" ∷ []

abbrev pub terminal_statuses : List String
terminal_statuses = "Confirmed" ∷ "Cancelled" ∷ []

abbrev pub transitions : List (String × List String)
transitions =
    ("Scheduled", "Held" ∷ "Cancelled" ∷ [])
    ∷ ("Held", "Reported" ∷ "Cancelled" ∷ [])
    ∷ ("Reported", "Confirmed" ∷ "Held" ∷ [])
    ∷ ("Confirmed", [])
    ∷ ("Cancelled", [])
    ∷ []

unfoldable pub is_terminal_status : String → Bool
is_terminal_status status = contains terminal_statuses status

-- From a stored status.
abbrev pub may_follow : String → String → Bool
may_follow from_status to_status =
    if from_status == to_status
    then true
    else contains (or_default [] (lookup from_status transitions)) to_status

-- A new gathering has no status to come from.
unfoldable pub is_valid_transition : Option String → String → Bool
is_valid_transition from_status to_status =
    if not (contains gathering_statuses to_status) then false else elim from_status [
      | none ↦ to_status == "Scheduled"
      | some status ↦ may_follow status to_status
    ]

unfoldable pub validate_status_transition :
    Option String → String → Result GatheringError (Unit {0})
unfolding is_valid_transition
validate_status_transition from_status to_status =
    if is_valid_transition from_status to_status then ok tt else elim from_status [
      | none ↦ err (new_must_start to_status)
      | some status ↦ err (illegal_transition status to_status)
    ]

unfoldable pub validate_gathering_branch_binding :
    Option String → String → Result GatheringError (Unit {0})
validate_gathering_branch_binding group_branch gathering_branch = do
  guard (not (gathering_branch == "")) branch_required
  guard (is_some group_branch) group_without_branch
  guard (group_branch == some gathering_branch) branch_differs

-- `"/".join(...)` of the reversed path, onto the part that is joined so far.
unfoldable pub join_reversed : String → List String → String
join_reversed joined [] = joined
join_reversed joined (name ∷ path) = join_reversed (name <> "/" <> joined) path

unfoldable pub build_group_path : List String → String
unfolding join_reversed
build_group_path [] = ""
build_group_path (group ∷ path) = "/" <> join_reversed group path
