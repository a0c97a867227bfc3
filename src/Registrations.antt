-- ===== src/Registrations.antt =====
-- flock_os/registrations.py: who may register for a gathering, when, and with which seat. The
-- membership and tree reads are a record of functions, the port of the module.
pub mod Transitions
pub mod Scope
pub mod Capacity
pub mod Waitlist
pub mod Chunks
mod Tests
use flock_os.Base.Int.{ℤ, pos, negsuc, ltz}
use flock_os.Base.Texts.{text_leb, text_ltb}
use flock_os.Base.Dict.{lookup, or_default}
use flock_os.Base.{
  ℕ, zero, suc, String, string_eq, option_eq, ◌==◌, Bool, true, false, not, ◌&&◌, ◌||◌, List, [],
  ◌∷◌, ◌++◌, Option, none, some, Result, ok, err, contains, add, any, take, drop, length, truthy,
  or_text, if◌then◌else◌,
}

pub data RegistrationError : Type 0 where
  illegal_transition : (from to : String) → RegistrationError
  unknown_scope : String → RegistrationError
  batch_size_below_one : ℤ → RegistrationError

abbrev pub registration_scopes : List String
registration_scopes =
    "None" ∷ "Own Group" ∷ "Group Subtree" ∷ "Branch" ∷ "Branch Subtree" ∷ "Org-wide"
    ∷ "Invited Only" ∷ []

abbrev pub closed_scopes : List String
closed_scopes = "None" ∷ []

abbrev pub registration_statuses : List String
registration_statuses = "Registered" ∷ "Waitlisted" ∷ "Cancelled" ∷ "Checked-in" ∷ "No-show" ∷ []

abbrev pub registration_transitions : List (String × List String)
registration_transitions =
    ("Registered", "Checked-in" ∷ "Cancelled" ∷ [])
    ∷ ("Waitlisted", "Registered" ∷ "Cancelled" ∷ [])
    ∷ ("Cancelled", [])
    ∷ ("Checked-in", [])
    ∷ ("No-show", [])
    ∷ []

abbrev pub terminal_registration_statuses : List String
terminal_registration_statuses = "Cancelled" ∷ "Checked-in" ∷ "No-show" ∷ []

unfoldable pub is_terminal_registration_status : String → Bool
is_terminal_registration_status status = contains terminal_registration_statuses status

unfoldable pub is_valid_registration_transition : String → String → Bool
is_valid_registration_transition from_status to_status =
    if not (contains registration_statuses to_status)
    then false
    else if from_status == to_status
    then true
    else contains (or_default [] (lookup from_status registration_transitions)) to_status

unfoldable pub validate_registration_transition :
    String → String → Result RegistrationError (Unit {0})
unfolding is_valid_registration_transition
validate_registration_transition from_status to_status =
    if is_valid_registration_transition from_status to_status
    then ok tt
    else err (illegal_transition from_status to_status)

pub record GatheringScope : Type 0 where
  pub branch : Option String
  pub group : Option String
  pub organization : Option String

-- What the predicate reads of `RegistrationScopeGateway`.
pub record ScopeGateway : Type 0 where
  pub member_branch : String → Option String
  pub member_organization : String → Option String
  pub member_groups : String → List String
  pub group_subtree : String → List String
  pub branch_subtree : String → List String
  pub gathering_scope : String → GatheringScope
  pub has_valid_invitation : (gathering member : String) → Bool

unfoldable pub is_invitation_expired : Option String → String → Bool
is_invitation_expired expires_on now =
    if not (truthy expires_on) then false else text_leb (or_text expires_on "") now

-- `gateway.member_branch(member) in subtree`
abbrev pub is_among : Option String → List String → Bool
is_among none names = false
is_among (some name) names = contains names name

module _ (member gathering : String) (gateway : ScopeGateway) where
  abbrev pub anchors : GatheringScope
  anchors = gateway.gathering_scope gathering

  -- The rule of a scope that is none of the closed ones.
  unfoldable pub scope_rule : String → Result RegistrationError Bool
  scope_rule scope =
      if scope == "Own Group"
      then ok (
          truthy anchors.group
          && contains (gateway.member_groups member) (or_text anchors.group ""))
      else if scope == "Group Subtree"
      then ok (
          truthy anchors.group
          && any (contains (gateway.group_subtree (or_text anchors.group "")))
              (gateway.member_groups member))
      else if scope == "Branch"
      then ok (truthy anchors.branch && gateway.member_branch member == anchors.branch)
      else if scope == "Branch Subtree"
      then ok (
          truthy anchors.branch
          && is_among (gateway.member_branch member)
              (gateway.branch_subtree (or_text anchors.branch "")))
      else if scope == "Org-wide"
      then ok (
          truthy anchors.organization && gateway.member_organization member == anchors.organization)
      else if scope == "Invited Only"
      then ok (gateway.has_valid_invitation gathering member)
      else err (unknown_scope scope)

  unfoldable pub is_member_in_scope : String → Result RegistrationError Bool
  unfolding scope_rule
  is_member_in_scope scope =
      if member == "" || gathering == ""
      then ok false
      else if contains closed_scopes scope
      then ok false
      else scope_rule scope

pub record RegistrationWindow : Type 0 where
  pub approval_status : String
  pub scope : String
  pub opens_on : Option String
  pub closes_on : Option String
  pub capacity : Option ℤ
  pub registered_count : ℤ

unfoldable pub is_registration_window_open : RegistrationWindow → String → Bool
is_registration_window_open window now =
    if contains closed_scopes window.scope
    then false
    else if not (window.approval_status == "Approved")
    then false
    else if truthy window.opens_on && text_ltb now (or_text window.opens_on "")
    then false
    else if truthy window.closes_on && text_ltb (or_text window.closes_on "") now
    then false
    else true

pub record CapacityDecision : Type 0 where
  pub status : String
  pub seated : Bool

abbrev pub is_waitlisted : CapacityDecision → Bool
is_waitlisted decision = decision.status == "Waitlisted"

-- Whether a capacity is set: `None` and numbers below 1 are not.
abbrev pub is_capped : Option ℤ → Bool
is_capped none = false
is_capped (some capacity) = not (ltz capacity (pos 1))

unfoldable pub capacity_decision : Option ℤ → ℤ → CapacityDecision
capacity_decision capacity registered_count = elim capacity [
  | none ↦ record { status = "Registered"; seated = true }
  | some limit ↦
      if ltz limit (pos 1)
      then (record { status = "Registered"; seated = true })
      else if ltz registered_count limit
      then (record { status = "Registered"; seated = true })
      else record { status = "Waitlisted"; seated = false }
]

unfoldable pub is_capacity_full : Option ℤ → ℤ → Bool
is_capacity_full capacity registered_count = elim capacity [
  | none ↦ false
  | some limit ↦ if ltz limit (pos 1) then false else not (ltz registered_count limit)
]

-- `and` evaluates the scope only where the window is open.
unfoldable pub is_gathering_registration_eligible :
    RegistrationWindow → String → String → String → ScopeGateway → Result RegistrationError Bool
unfolding is_registration_window_open is_member_in_scope
is_gathering_registration_eligible window now member gathering gateway =
    if is_registration_window_open window now
    then is_member_in_scope member gathering gateway window.scope
    else ok false

pub record WaitlistCandidate : Type 0 where
  pub name : String
  pub gathering : String
  pub registrant : String
  pub registered_at : String

-- The order of the pairs `(registered_at, name)`: Python's `<` of tuples.
abbrev pub is_before : WaitlistCandidate → WaitlistCandidate → Bool
is_before c d =
    text_ltb c.registered_at d.registered_at
    || (c.registered_at == d.registered_at && text_ltb c.name d.name)

-- `min` keeps the first of the least.
unfoldable pub least : WaitlistCandidate → List WaitlistCandidate → WaitlistCandidate
least best [] = best
least best (c ∷ candidates) = least (if is_before c best then c else best) candidates

unfoldable pub select_waitlist_promotion_candidate :
    List WaitlistCandidate → Option WaitlistCandidate
unfolding least
select_waitlist_promotion_candidate [] = none
select_waitlist_promotion_candidate (c ∷ candidates) = some (least c candidates)

-- `dict.fromkeys(m for m in members if m)`
unfoldable pub unique_members : List String → List String → List String
unique_members seen [] = seen
unique_members seen (m ∷ members) = unique_members (if m == "" then seen else add seen m) members

-- The slices of `size` from the start of the list on; the fuel is the length of the list.
unfoldable pub slices : ℕ → ℕ → List String → List (List String)
slices fuel size [] = []
slices zero size (m ∷ members) = []
slices (suc fuel) size (m ∷ members) =
    take size (m ∷ members) ∷ slices fuel size (drop size (m ∷ members))

unfoldable pub chunk_members : List String → ℤ → Result RegistrationError (List (List String))
unfolding unique_members slices
chunk_members members (pos (suc n)) =
    let unique = unique_members [] members in ok (slices (length unique) (suc n) unique)
chunk_members members (pos zero) = err (batch_size_below_one (pos 0))
chunk_members members (negsuc n) = err (batch_size_below_one (negsuc n))
