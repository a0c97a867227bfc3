-- ===== src/Scheduling.antt =====
-- flock_os/scheduling.py: the scope and the lifecycle of announcements, their audience, and the
-- controller that previews, schedules and publishes them. The tree reads are a record of functions, the port of
-- the module; the documents and the emitted events are the state.
pub mod Validity
pub mod Audience
pub mod Schedule
mod Tests
use flock_os.Trees.{TreeError, ParentMap, ChildMap}
use flock_os.Permissions.{
  PermissionError, PermissionGateway, assert_branch_scope, compute_branch_subtree,
}
use flock_os.Base.Dict.{lookup, insert, or_default}
use flock_os.Base.{
  ℕ, String, string_eq, ◌==◌, Bool, true, false, not, ◌&&◌, List, [], ◌∷◌, ◌++◌, Option, none, some,
  Result, ok, err, guard, ◌>>=◌, ◌>>◌, contains, length, truthy, or_text, if◌then◌else◌,
}

-- `FlockSchedulingError`, by the message, and what the calls below raise.
pub data SchedulingError : Type 0 where
  organization_required branch_required scheduled_at_required : SchedulingError
  branch_not_in_organization : String → String → SchedulingError
  no_group group_unbound : String → SchedulingError
  group_elsewhere : (group group_branch branch : String) → SchedulingError
  unknown_status : String → SchedulingError
  illegal_transition : (current target : String) → SchedulingError
  no_document : String → SchedulingError
  denied : PermissionError → SchedulingError
  tree_fault : TreeError String → SchedulingError
  missing_gateway : SchedulingError

abbrev pub announcement_statuses : List String
announcement_statuses = "Draft" ∷ "Scheduled" ∷ "Publishing" ∷ "Published" ∷ "Archived" ∷ []

abbrev pub announcement_transitions : List (String × List String)
announcement_transitions =
    ("Draft", "Scheduled" ∷ "Publishing" ∷ "Published" ∷ [])
    ∷ ("Scheduled", "Publishing" ∷ "Published" ∷ [])
    ∷ ("Publishing", "Published" ∷ [])
    ∷ ("Published", "Archived" ∷ [])
    ∷ ("Archived", [])
    ∷ []

pub record SchedulingGateway : Type 0 where
  pub branch_exists : (branch organization : String) → Bool
  pub group_exists : String → Bool
  pub group_branch : String → Option String
  pub branch_children_of : ChildMap String

-- The attributes of an announcement that the module reads or writes.
pub record Announcement : Type 0 where
  pub organization : Option String
  pub branch : Option String
  pub group : Option String
  pub status : Option String
  pub scheduled_at : Option String

-- The part of the rule about a group anchor.
unfoldable pub validate_group_anchor :
    SchedulingGateway → (group branch : String) → Result SchedulingError (Unit {0})
validate_group_anchor gateway group branch = do
  guard (gateway.group_exists group) (no_group group)
  guard (truthy (gateway.group_branch group)) (group_unbound group)
  guard (or_text (gateway.group_branch group) "" == branch)
      (group_elsewhere group (or_text (gateway.group_branch group) "") branch)

unfoldable pub validate_announcement_scope :
    Announcement → SchedulingGateway → Result SchedulingError (Unit {0})
unfolding validate_group_anchor
validate_announcement_scope announcement gateway =
    let organization = or_text announcement.organization "" in
    let branch = or_text announcement.branch "" in
    let status = or_text announcement.status "Draft" in
    do
      guard (truthy announcement.organization) organization_required
      guard (truthy announcement.branch) branch_required
      guard (gateway.branch_exists branch organization)
          (branch_not_in_organization branch organization)
      if truthy announcement.group
          then validate_group_anchor gateway (or_text announcement.group "") branch
          else ok tt
      guard (contains announcement_statuses status) (unknown_status status)
      guard (not (status == "Scheduled" && not (truthy announcement.scheduled_at)))
          scheduled_at_required

unfoldable pub validate_status_transition :
    (current target : String) → Result SchedulingError (Unit {0})
validate_status_transition current target =
    guard (contains (or_default [] (lookup current announcement_transitions)) target)
      (illegal_transition current target)

-- The exceptions of another module pass through.
abbrev pub raised_by {ℓ} :
    {E A : Type ℓ} → (E → SchedulingError) → Result E A → Result SchedulingError A
raised_by f (ok a) = ok a
raised_by f (err e) = err (f e)

unfoldable pub resolve_audience_branches :
    String → SchedulingGateway → Result SchedulingError (List String)
unfolding compute_branch_subtree
resolve_audience_branches branch gateway = do
  guard (not (branch == "")) branch_required
  raised_by tree_fault (compute_branch_subtree branch gateway.branch_children_of)

-- `_frappe_author_branch_scope`, the guard installed by default, for the user of the session.
unfoldable pub author_branch_scope :
    PermissionGateway → String → String → Result SchedulingError (Unit {0})
unfolding assert_branch_scope
author_branch_scope permissions user branch =
    if user == ""
    then ok tt
    else raised_by denied (assert_branch_scope (some branch) user permissions)

pub record Preview : Type 0 where
  pub branches : List String
  pub branch_count : ℕ

-- What the endpoints are wired to, and the user of the session.
pub record Wiring : Type 0 where
  pub gateway : SchedulingGateway
  pub permissions : PermissionGateway
  pub user : String

unfoldable pub preview_audience :
    Wiring → (organization branch : String) → Option String → Result SchedulingError Preview
unfolding validate_announcement_scope author_branch_scope resolve_audience_branches
preview_audience wiring organization branch group = do
  validate_announcement_scope
      (record {
        organization = some organization;
        branch = some branch;
        group = group;
        status = some "Draft";
        scheduled_at = none;
      })
      wiring.gateway
  author_branch_scope wiring.permissions wiring.user branch
  branches ← resolve_audience_branches branch wiring.gateway
  ok (record { branches = branches; branch_count = length branches })

-- The payload of `flock.announcement.scheduled`.
pub record ScheduledEvent : Type 0 where
  pub announcement : String
  pub branch : Option String
  pub group : Option String
  pub organization : Option String
  pub scheduled_at : Option String

-- The documents by name, and the events in the order of their emission.
pub record Desk : Type 0 where
  pub documents : List (String × Announcement)
  pub events : List ScheduledEvent

-- The call on the document that `frappe.get_doc` returns, if any.
unfoldable pub schedule_document :
    Wiring → String → Desk → Option Announcement → Result SchedulingError Desk
unfolding validate_announcement_scope author_branch_scope validate_status_transition
schedule_document wiring name desk none = err (no_document name)
schedule_document wiring name desk (some stored) =
    let doc : Announcement = record stored { status = some "Scheduled" } in
    do
      validate_announcement_scope doc wiring.gateway
      author_branch_scope wiring.permissions wiring.user (or_text doc.branch "")
      validate_status_transition "Draft" "Scheduled"
      ok (record {
        documents = insert name doc desk.documents;
        events =
            desk.events
            ++ (record {
              announcement = name;
              branch = doc.branch;
              group = doc.group;
              organization = doc.organization;
              scheduled_at = doc.scheduled_at;
            })
              ∷ [];
      })

unfoldable pub schedule_announcement : Wiring → String → Desk → Result SchedulingError Desk
unfolding schedule_document
schedule_announcement wiring name desk =
    schedule_document wiring name desk (lookup name desk.documents)

-- The call on the document that is found. It ends where the fan-out is called without its required
-- `gateway`, a `TypeError`, so what follows in the source is never run.
unfoldable pub publish_document :
    Wiring → String → Option Announcement → Result SchedulingError Desk
unfolding validate_announcement_scope author_branch_scope validate_status_transition
    resolve_audience_branches
publish_document wiring name none = err (no_document name)
publish_document wiring name (some doc) = do
  validate_announcement_scope doc wiring.gateway
  author_branch_scope wiring.permissions wiring.user (or_text doc.branch "")
  validate_status_transition (or_text doc.status "Draft") "Publishing"
  validate_status_transition "Publishing" "Published"
  branches ← resolve_audience_branches (or_text doc.branch "") wiring.gateway
  err missing_gateway

unfoldable pub publish_announcement : Wiring → String → Desk → Result SchedulingError Desk
unfolding publish_document
publish_announcement wiring name desk = publish_document wiring name (lookup name desk.documents)
