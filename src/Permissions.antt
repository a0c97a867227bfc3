-- ===== src/Permissions.antt =====
-- flock_os/permissions.py: the guards of the two axes of row-level scope, the branch axis and the
-- group axis, and the authority over an approval step. The database reads are a record of functions,
-- the port of the module; the nested-set bounds are natural numbers.
mod Checks
pub mod Group
pub mod Decide
mod Tests
use flock_os.Trees.{TreeError, ParentMap, ChildMap, subtree_of, root_of}
use flock_os.Base.Dict.{or_default}
use flock_os.Base.{
  ℕ, String, string_eq, option_eq, ◌==◌, Bool, true, false, not, ◌&&◌, ◌||◌, List, [], ◌∷◌, Option,
  none, some, Result, ok, err, contains, any, truthy, or_text, leb, if◌then◌else◌,
}

-- `FlockPermissionError`, by the message.
pub data PermissionError : Type 0 where
  lacks_branch_scope : String → Option String → PermissionError
  lacks_group_scope : String → Option String → Option String → PermissionError
  not_approver : String → PermissionError

abbrev pub bypass_roles : List String
bypass_roles = "Flock Org Admin" ∷ "Flock Branch Admin" ∷ "Flock Auditor" ∷ []

abbrev pub global_branch_roles : List String
global_branch_roles = "Flock Org Admin" ∷ "Flock Auditor" ∷ []

pub record GroupBounds : Type 0 where
  pub name : String
  pub lft : ℕ
  pub rgt : ℕ

pub record LeaderScope : Type 0 where
  pub member : Option String
  pub led_bounds : List GroupBounds
  pub joined_groups : List String

pub record PermissionGateway : Type 0 where
  pub get_user_roles : String → List String
  pub resolve_member_for_user : String → Option String
  pub fetch_led_group_bounds : String → List GroupBounds
  pub fetch_joined_group_names : String → List String
  pub fetch_group_bounds : String → Option GroupBounds
  pub list_branch_user_permissions : String → List String

abbrev pub is_bypass_user : List String → Bool
is_bypass_user roles = any (contains bypass_roles) roles

-- The scope of a user whose roles do not bypass the group axis, by the member of the user.
abbrev pub scope_of_member : PermissionGateway → Option String → LeaderScope
scope_of_member gateway none = record { member = none; led_bounds = []; joined_groups = [] }
scope_of_member gateway (some member) = record {
  member = some member;
  led_bounds = gateway.fetch_led_group_bounds member;
  joined_groups = gateway.fetch_joined_group_names member;
}

-- `roles` given, or none for those of the port.
unfoldable pub resolve_leader_scope :
    PermissionGateway → String → Option (List String) → LeaderScope
resolve_leader_scope gateway user roles =
    let user_roles = or_default (gateway.get_user_roles user) roles in
    if is_bypass_user user_roles
    then (record {
      member = gateway.resolve_member_for_user user;
      led_bounds = [];
      joined_groups = [];
    })
    else scope_of_member gateway (gateway.resolve_member_for_user user)

-- `led.lft <= doc_bounds.lft and doc_bounds.rgt <= led.rgt`
abbrev pub is_within : GroupBounds → GroupBounds → Bool
is_within doc_bounds led = leb led.lft doc_bounds.lft && leb doc_bounds.rgt led.rgt

unfoldable pub can_access_branch : Option String → List String → List String → Bool
can_access_branch branch allowed_branches roles =
    if any (contains global_branch_roles) roles
    then true
    else if not (truthy branch)
    then true
    else contains allowed_branches (or_text branch "")

unfoldable pub assert_branch_scope :
    Option String → String → PermissionGateway → Result PermissionError (Unit {0})
unfolding can_access_branch
assert_branch_scope doc_branch user gateway =
    if can_access_branch doc_branch (gateway.list_branch_user_permissions user)
      (gateway.get_user_roles user)
    then ok tt
    else err (lacks_branch_scope user doc_branch)

-- Whether the live bounds of a group, where there are any, lie in the led ones.
abbrev pub is_led : List GroupBounds → Option GroupBounds → Bool
is_led led_bounds none = false
is_led led_bounds (some doc_bounds) = any (is_within doc_bounds) led_bounds

abbrev pub is_none : Option String → Bool
is_none none = true
is_none (some text) = false

unfoldable pub assert_group_scope :
    Option String → Option String → String → PermissionGateway → Result PermissionError (Unit {0})
unfolding resolve_leader_scope
assert_group_scope doc_group doc_member user gateway =
    let roles = gateway.get_user_roles user in
    let scope = resolve_leader_scope gateway user (some roles) in
    let group = or_text doc_group "" in
    if is_bypass_user roles
    then ok tt
    else if is_none doc_group && is_none doc_member
    then ok tt
    else if truthy scope.member && (truthy doc_member && doc_member == scope.member)
    then ok tt
    else if truthy doc_group && is_led scope.led_bounds (gateway.fetch_group_bounds group)
    then ok tt
    else if truthy doc_group && contains scope.joined_groups group
    then ok tt
    else err (lacks_group_scope user doc_group doc_member)

-- The attributes of a step that the guard reads.
pub record DecidableStep : Type 0 where
  pub approver_user : Option String
  pub approver_member : Option String
  pub approver_level : Option String
  pub doc_branch : Option String
  pub doc_group : Option String

module _ (step : DecidableStep) (user : String) (gateway : PermissionGateway) where
  abbrev pub has_branch_access : Bool
  has_branch_access =
      can_access_branch step.doc_branch (gateway.list_branch_user_permissions user)
        (gateway.get_user_roles user)

  -- The identity check.
  unfoldable pub is_resolved_approver : Bool
  unfolding can_access_branch
  is_resolved_approver =
      let member = gateway.resolve_member_for_user user in
      (truthy step.approver_user && step.approver_user == some user)
      || (truthy step.approver_member && (truthy member && step.approver_member == member))
      || (step.approver_level == some "Branch Admin"
          && (contains (gateway.get_user_roles user) "Flock Branch Admin" && has_branch_access))

  unfoldable pub can_decide_approval_step : Bool
  unfolding is_resolved_approver can_access_branch resolve_leader_scope
  can_decide_approval_step =
      let roles = gateway.get_user_roles user in
      let scope = resolve_leader_scope gateway user (some roles) in
      if not is_resolved_approver
      then false
      else if not has_branch_access
      then false
      else if truthy step.doc_group && not (step.approver_level == some "Branch Admin")
      then if is_bypass_user roles
        then true
        else is_led scope.led_bounds (gateway.fetch_group_bounds (or_text step.doc_group ""))
      else true

  unfoldable pub assert_approval_scope : Result PermissionError (Unit {0})
  unfolding can_decide_approval_step
  assert_approval_scope = if can_decide_approval_step then ok tt else err (not_approver user)

-- `trees.FlockTreeError` for an empty branch.
unfoldable pub compute_branch_subtree :
    String → ChildMap String → Result (TreeError String) (List String)
compute_branch_subtree branch children_of =
    if branch == "" then err TreeError.branch_required else subtree_of branch children_of

unfoldable pub compute_branch_subtree_rebuild_target :
    String → ParentMap String → Result (TreeError String) String
compute_branch_subtree_rebuild_target moved_branch parent_of = root_of moved_branch parent_of
