-- ===== src/Approvals.antt =====
-- flock_os/approvals.py: the approval of a one-time event, its states and its chain of approvers.
-- The tree and roster reads are a record of functions, the port of the module.
mod Transitions
mod Walk
mod Cap
mod Chain
mod Shape
mod Advance
mod Tests
use flock_os.Base.Int.{ℤ, pos, negsuc, ltz}
use flock_os.Base.Dict.{lookup, or_default}
use flock_os.Base.{
  ℕ, zero, suc, ◌+◌, String, string_eq, ◌==◌, Bool, true, false, not, ◌&&◌, ◌||◌, List, [], ◌∷◌,
  ◌++◌, Option, none, some, Result, ok, err, ◌>>=◌, ◌>>◌, guard, contains, filter, any, drop,
  length, truthy, or_text, is_some, if◌then◌else◌,
}

pub data ApprovalError : Type 0 where
  illegal_start : String → ApprovalError
  illegal_transition : (from to : String) → ApprovalError
  group_required requested_by_required : ApprovalError
  no_approver : String → ApprovalError

abbrev pub approval_statuses : List String
approval_statuses =
    "Draft" ∷ "Pending Approval" ∷ "Approved" ∷ "Rejected" ∷ "Cancelled" ∷ "Withdrawn" ∷ []

abbrev pub terminal_approval_statuses : List String
terminal_approval_statuses = "Approved" ∷ "Rejected" ∷ "Cancelled" ∷ "Withdrawn" ∷ []

abbrev pub approval_transitions : List (String × List String)
approval_transitions =
    ("Draft", "Pending Approval" ∷ "Approved" ∷ "Withdrawn" ∷ "Cancelled" ∷ [])
    ∷ ("Pending Approval", "Approved" ∷ "Rejected" ∷ "Cancelled" ∷ [])
    ∷ ("Rejected", "Draft" ∷ [])
    ∷ ("Withdrawn", "Draft" ∷ [])
    ∷ ("Approved", [])
    ∷ ("Cancelled", [])
    ∷ []

unfoldable pub is_terminal_approval_status : String → Bool
is_terminal_approval_status status = contains terminal_approval_statuses status

unfoldable pub is_valid_approval_transition : Option String → String → Bool
is_valid_approval_transition from_status to_status =
    if not (contains approval_statuses to_status) then false else elim from_status [
      | none ↦ to_status == "Draft"
      | some from ↦
          if from == to_status
          then true
          else contains (or_default [] (lookup from approval_transitions)) to_status
    ]

unfoldable pub validate_approval_transition :
    Option String → String → Result ApprovalError (Unit {0})
unfolding is_valid_approval_transition
validate_approval_transition from_status to_status =
    if is_valid_approval_transition from_status to_status then ok tt else elim from_status [
      | none ↦ err (illegal_start to_status)
      | some from ↦ err (illegal_transition from to_status)
    ]

-- The knobs that only other modules read are left out: the timeout, the registration scope and the
-- waitlist.
pub record ApprovalPolicy : Type 0 where
  pub require_branch_admin_final : Bool
  pub max_approval_levels : Option ℤ
  pub allow_self_approval : Bool
  pub auto_approve_below_capacity : Option ℤ

abbrev pub default_policy : ApprovalPolicy
default_policy = record {
  require_branch_admin_final = true;
  max_approval_levels = none;
  allow_self_approval = false;
  auto_approve_below_capacity = none;
}

unfoldable pub is_auto_approved : Option ℤ → ApprovalPolicy → Bool
is_auto_approved capacity policy = elim policy.auto_approve_below_capacity [
  | none ↦ false
  | some threshold ↦
      if ltz threshold (pos 1)
      then false
      else elim capacity [ none ↦ false | some c ↦ ltz c threshold ]
]

pub record ChainNode : Type 0 where
  pub group : String
  pub leaders : List String

-- `ApprovalChainGateway`
pub record ChainGateway : Type 0 where
  pub chain_nodes_for_group : String → List ChainNode
  pub user_for_member : String → Option String
  pub group_branch : String → Option String
  pub branch_admin_member : String → Option String
  pub branch_admin_user : String → Option String

pub record StepSpec : Type 0 where
  pub idx : ℕ
  pub approver_level : String
  pub approver_member : Option String
  pub approver_user : Option String
  pub approver_group : Option String
  pub step_status : String

abbrev pub level_for_depth : ℕ → String
level_for_depth zero = "Parent Group Leader"
level_for_depth (suc zero) = "Parent Group Leader"
level_for_depth (suc (suc depth)) = "Ancestor Group Leader"

abbrev pub branch_admin : String
branch_admin = "Branch Admin"

-- `specs` and `seen_leaders`
pub record Walked : Type 0 where
  pub specs : List StepSpec
  pub seen : List String

abbrev pub is_pending : StepSpec → Bool
is_pending step = step.step_status == "Pending"

-- The leader steps that the depth cap keeps.
unfoldable pub keep_within : ℕ → List StepSpec → List StepSpec
keep_within budget [] = []
keep_within budget (step ∷ steps) =
    let skipped = keep_within budget steps in
    elim budget [
      | zero ↦ if step.step_status == "Skipped" then step ∷ skipped else skipped
      | suc rest ↦
          if step.step_status == "Skipped" then step ∷ skipped else step ∷ keep_within rest steps
    ]

unfoldable pub reindex : ℕ → List StepSpec → List StepSpec
reindex i [] = []
reindex i (step ∷ steps) = record step { idx = i } ∷ reindex (suc i) steps

module _ (requested_by : String) (policy : ApprovalPolicy) (gateway : ChainGateway) where
  abbrev pub leader_step : String → String → String → ℕ → StepSpec
  leader_step level group leader idx = record {
    idx = idx;
    approver_level = level;
    approver_member = some leader;
    approver_user = gateway.user_for_member leader;
    approver_group = some group;
    step_status =
        if leader == requested_by && not policy.allow_self_approval then "Skipped" else "Pending";
  }

  -- One pass of the inner loop.
  unfoldable pub visit_leader : String → String → Walked → String → Walked
  visit_leader level group w leader = if leader == "" || contains w.seen leader then w else record {
    specs = w.specs ++ leader_step level group leader (length w.specs) ∷ [];
    seen = w.seen ++ leader ∷ [];
  }

  unfoldable pub visit_leaders : String → String → Walked → List String → Walked
  unfolding visit_leader
  visit_leaders level group w [] = w
  visit_leaders level group w (leader ∷ leaders) =
      visit_leaders level group (visit_leader level group w leader) leaders

  unfoldable pub walk : ℕ → Walked → List ChainNode → Walked
  unfolding visit_leaders
  walk depth w [] = w
  walk depth w (node ∷ nodes) =
      walk (suc depth) (visit_leaders (level_for_depth depth) node.group w node.leaders) nodes

  -- The step that closes the chain: one, or none.
  unfoldable pub admin_steps : String → ℕ → List StepSpec
  admin_steps group idx =
      if policy.require_branch_admin_final
      then (let branch = gateway.group_branch group in
          let admin = gateway.branch_admin_member (or_text branch "") in
          if truthy branch && truthy admin
          then record {
            idx = idx;
            approver_level = branch_admin;
            approver_member = admin;
            approver_user = gateway.branch_admin_user (or_text branch "");
            approver_group = none;
            step_status = "Pending";
          }
            ∷ []
          else [])
      else []

  unfoldable pub cap_depth : List StepSpec → List StepSpec
  unfolding keep_within reindex
  cap_depth specs = elim policy.max_approval_levels [
    | none ↦ specs
    | some (negsuc n) ↦ specs
    | some (pos budget) ↦ reindex 0 (
        keep_within budget (filter (λ s. not (s.approver_level == branch_admin)) specs)
        ++ filter (λ s. s.approver_level == branch_admin) specs)
  ]

  unfoldable pub resolve_approval_chain : String → Result ApprovalError (List StepSpec)
  unfolding walk admin_steps cap_depth
  resolve_approval_chain group = do
    guard (not (group == "")) group_required
    guard (not (requested_by == "")) requested_by_required
    let walked = walk 0 (record { specs = []; seen = [] }) (gateway.chain_nodes_for_group group)
    let steps = cap_depth (walked.specs ++ admin_steps group (length walked.specs))
    guard (any is_pending steps) (no_approver group)
    ok steps

unfoldable pub first_pending_from : ℕ → List StepSpec → Option ℕ
first_pending_from i [] = none
first_pending_from i (step ∷ steps) =
    let rest = first_pending_from (suc i) steps in if is_pending step then some i else rest

unfoldable pub first_pending_step : List StepSpec → Option ℕ
unfolding first_pending_from
first_pending_step steps = first_pending_from 0 steps

unfoldable pub is_chain_complete : List StepSpec → Bool
unfolding first_pending_step
is_chain_complete steps = not (is_some (first_pending_step steps))

unfoldable pub current_step_index : List StepSpec → ℕ → Option ℕ
unfolding first_pending_from
current_step_index steps stored_current =
    first_pending_from stored_current (drop stored_current steps)
