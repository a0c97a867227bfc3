-- ===== src/Approvals/Tests.antt =====
-- A cell whose leader asks, and the theorems at its chain.
use flock_os.Approvals.{
  ApprovalPolicy, ChainGateway, StepSpec, default_policy, branch_admin, is_pending,
  is_auto_approved, current_step_index, reindex, resolve_approval_chain,
}
use flock_os.Approvals.Walk.{IsLeaderStep}
use flock_os.Approvals.Cap.{member_of, is_leader, IsAdminStep}
use flock_os.Approvals.Chain.{
  resolve_approval_chain_lem, resolve_approval_chain-cap, resolve_approval_chain-admin,
}
use flock_os.Approvals.Advance.{current_step_index_lem}
use flock_os.Base.Int.{pos}
use flock_os.Base.{
  ◌+◌, false, drop, take, get_elem?, ℕ, ◌≤◌, ◌≡◌, ◌⊎◌, refl, String, string_eq, option_eq, true,
  ◌&&◌, List, [], ◌∷◌, ◌++◌, map, Option, none, some, ok, All, IsDistinct, any, count, filter,
}

abbrev port : ChainGateway
port = record {
  chain_nodes_for_group = λ group.
      record { group = "cell"; leaders = "ann" ∷ "bob" ∷ [] }
      ∷ record { group = "zone"; leaders = "bob" ∷ "eve" ∷ [] }
      ∷ [];
  user_for_member = λ member. some member;
  group_branch = λ group. some "north";
  branch_admin_member = λ branch. some "ann";
  branch_admin_user = λ branch. some "ann";
}

abbrev one_level : ApprovalPolicy
one_level = record default_policy { max_approval_levels = some (pos 1) }

abbrev step_of : ℕ → String → String → Option String → String → StepSpec
step_of idx level member group status = record {
  idx = idx;
  approver_level = level;
  approver_member = some member;
  approver_user = some member;
  approver_group = group;
  step_status = status;
}

-- The cap drops the step of `eve`.
abbrev chain : List StepSpec
chain =
    step_of 0 "Parent Group Leader" "ann" (some "cell") "Skipped"
    ∷ step_of 1 "Parent Group Leader" "bob" (some "cell") "Pending"
    ∷ step_of 2 branch_admin "ann" none "Pending"
    ∷ []

resolves : resolve_approval_chain "ann" one_level port "cell" ≡ ok chain
unfolding resolve_approval_chain
resolves = refl

below_threshold :
    is_auto_approved
      (some (pos 19))
      (record default_policy { auto_approve_below_capacity = some (pos 20) })
    ≡ true
unfolding is_auto_approved
below_threshold = refl

resolve_approval_chain_lem_example :
    (reindex 0 chain ≡ chain)
    × All (λ s. IsLeaderStep "ann" one_level port s ⊎ IsAdminStep s) chain
    × IsDistinct (map member_of (filter is_leader chain))
    × (any is_pending chain ≡ true)
resolve_approval_chain_lem_example =
    resolve_approval_chain_lem "ann" one_level port "cell" chain resolves

resolve_approval_chain-cap_example : count (λ s. is_leader s && is_pending s) chain ≤ 1
resolve_approval_chain-cap_example =
    resolve_approval_chain-cap "ann" one_level port "cell" chain 1 refl resolves

resolve_approval_chain-admin_example :
    (before : List StepSpec) × (last : StepSpec) × (resolve_approval_chain "ann" one_level port
        "cell"
      ≡ ok (before ++ last ∷ []))
    × (last.approver_member ≡ some "ann")
    × (last.approver_level ≡ branch_admin)
    × (last.step_status ≡ "Pending")
resolve_approval_chain-admin_example =
    resolve_approval_chain-admin "ann" one_level port "cell" "north" "ann" refl refl refl refl refl
      refl refl

current_step_index_lem_example :
    ((current_step_index chain 1 ≡ none) × (any is_pending (drop 1 chain) ≡ false))
    ⊎ ((n : ℕ) × (step : StepSpec) × (current_step_index chain 1 ≡ some (1 + n))
        × (get_elem? (drop 1 chain) n ≡ some step)
        × (is_pending step ≡ true)
        × (any is_pending (take n (drop 1 chain)) ≡ false))
current_step_index_lem_example = current_step_index_lem chain 1
