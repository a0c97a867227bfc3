-- ===== src/Permissions/Tests.antt =====
-- A leader, a member and an admin, and the theorems at them.
use flock_os.Permissions.{
  PermissionGateway, GroupBounds, DecidableStep, can_access_branch, assert_branch_scope,
  assert_group_scope, can_decide_approval_step, resolve_leader_scope, compute_branch_subtree,
  can_access_branch,
}
use flock_os.Permissions.Group.{IsInGroupScope, assert_group_scope_lem}
use flock_os.Permissions.Decide.{
  IsApprover, can_decide_approval_step-IsApprover, can_decide_approval_step-group,
}
use flock_os.Base.{
  ◌≡◌, ◌≢◌, refl, ◌↔◌, string_eq, ◌==◌, false, [], ◌∷◌, none, some, ok, if◌then◌else◌, arith,
}

abbrev cell : GroupBounds
cell = record { name = "cell"; lft = 3; rgt = 4 }

abbrev area : GroupBounds
area = record { name = "area"; lft = 2; rgt = 7 }

abbrev port : PermissionGateway
port = record {
  get_user_roles =
      λ user. if user == "admin@x" then "Flock Branch Admin" ∷ [] else "Flock Group Leader" ∷ [];
  resolve_member_for_user = λ user. if user == "ann@x" then some "ann" else none;
  fetch_led_group_bounds = λ member. area ∷ [];
  fetch_joined_group_names = λ member. [];
  fetch_group_bounds = λ group. if group == "cell" then some cell else none;
  list_branch_user_permissions = λ user. "north" ∷ [];
}

abbrev leader_step : DecidableStep
leader_step = record {
  approver_user = none;
  approver_member = some "ann";
  approver_level = some "Leader";
  doc_branch = some "north";
  doc_group = some "cell";
}

other_row : assert_group_scope none (some "bob") "ann@x" port ≢ ok tt
unfolding assert_group_scope resolve_leader_scope
other_row h = absurd (ground (arith, h))

branch_of_another :
    can_access_branch (some "south") ("north" ∷ []) ("Flock Group Leader" ∷ []) ≡ false
unfolding can_access_branch
branch_of_another = refl

subtree : compute_branch_subtree "north" (("north", "east" ∷ []) ∷ []) ≡ ok ("north" ∷ "east" ∷ [])
unfolding compute_branch_subtree flock_os.Trees.subtree_of flock_os.Trees.descendants_of
    flock_os.Trees.children
subtree = refl

assert_group_scope_lem_example :
    (assert_group_scope (some "cell") none "ann@x" port ≡ ok tt)
    ↔ IsInGroupScope "ann@x" port (some "cell") none
assert_group_scope_lem_example = assert_group_scope_lem (some "cell") none "ann@x" port

can_decide_approval_step-IsApprover_example :
    IsApprover leader_step "ann@x" port
    × (assert_branch_scope leader_step.doc_branch "ann@x" port ≡ ok tt)
unfolding can_decide_approval_step
can_decide_approval_step-IsApprover_example =
    can_decide_approval_step-IsApprover leader_step "ann@x" port refl

can_decide_approval_step-group_example :
    assert_group_scope leader_step.doc_group (some "bob") "ann@x" port ≡ ok tt
unfolding can_decide_approval_step
can_decide_approval_step-group_example =
    can_decide_approval_step-group leader_step "ann@x" port (some "bob") refl refl refl
