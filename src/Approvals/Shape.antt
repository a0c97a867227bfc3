-- ===== src/Approvals/Shape.antt =====
-- The form of a resolved chain: the kept leaders, then the branch admin.
use flock_os.Approvals.Cap.{
  member_of, is_leader, IsAdminStep, keep_within-All, keep_within-IsDistinct, filter-leaders,
  filter-admins, IsDistinct-some,
}
use flock_os.Approvals.{
  ApprovalPolicy, ChainGateway, StepSpec, Walked, branch_admin, is_pending, walk, admin_steps,
  keep_within, reindex, cap_depth, resolve_approval_chain,
}
use flock_os.Approvals.Walk.{IsLeaderStep, IsWalked, walk-IsWalked, reindex-append}
use flock_os.Base.Int.{ℤ, pos, negsuc}
use flock_os.Base.{
  ℕ, ◌+◌, ◌≡◌, ◌⊎◌, refl, sym, ap, ◌∙◌, subst, String, string_eq, option_eq, ◌==◌, Bool-cases, true,
  not, ◌&&◌, inl, inr, List, [], ◌++◌, map, append-nil, Option, none, some, ok, >>=-eq-ok,
  ok_injective, guard-eq-ok, guard, truthy, or_text, IsDistinct, All, All-mono, any, filter,
  filter-append, length, arith,
}

cap-cases :
    (cap : Option ℤ)
    → (((cap ≡ none) ⊎ ((n : ℕ) × (cap ≡ some (negsuc n)))) ⊎ ((n : ℕ) × (cap ≡ some (pos n))))
cap-cases none = inl (inl refl)
cap-cases (some (negsuc n)) = inl (inr (n, refl))
cap-cases (some (pos n)) = inr (n, refl)

module _ (requested_by : String) (policy : ApprovalPolicy) (gateway : ChainGateway) where
  abbrev pub LeaderRule : StepSpec → Type 0
  LeaderRule s = IsLeaderStep requested_by policy gateway s

  pub leaders_are_leaders :
      (xs : List StepSpec) → All LeaderRule xs → All (λ s. is_leader s ≡ true) xs
  leaders_are_leaders xs h = All-mono xs (λ s rule. ground (arith, rule.level)) h

  pub admin_steps-All :
      (group : String) (idx : ℕ)
      → All IsAdminStep (admin_steps requested_by policy gateway group idx)
  unfolding admin_steps
  admin_steps-All group idx =
      let branch = gateway.group_branch group in
      let admin = gateway.branch_admin_member (or_text branch "") in
      elim (Bool-cases policy.require_branch_admin_final) [
        | inr free ↦ rw free tt
        | inl required ↦ elim (Bool-cases (truthy branch && truthy admin)) [
          | inl there ↦ rw (required, there) (record { level = refl; status = refl }, tt)
          | inr missing ↦ rw (required, missing) tt
        ]
      ]

  -- The walked leaders, before the cap.
  abbrev pub walked : String → Walked
  walked group =
      walk requested_by policy gateway 0 (record { specs = []; seen = [] })
        (gateway.chain_nodes_for_group group)

  walked-IsWalked : (group : String) → IsWalked requested_by policy gateway (walked group)
  walked-IsWalked group =
      walk-IsWalked requested_by policy gateway 0 (record { specs = []; seen = [] })
        (gateway.chain_nodes_for_group group)
        (record { numbered = unfold reindex in refl; members = refl; distinct = tt; leaders = tt })

  abbrev pub uncapped : String → List StepSpec
  uncapped group =
      (walked group).specs
      ++ admin_steps requested_by policy gateway group (length (walked group).specs)

  members-IsDistinct :
      (w : Walked) → IsWalked requested_by policy gateway w → IsDistinct (map member_of w.specs)
  members-IsDistinct w h =
      subst (λ l. IsDistinct l) (sym h.members) (IsDistinct-some w.seen h.distinct)

  abbrev pub admin_of : String → List StepSpec
  admin_of group = admin_steps requested_by policy gateway group (length (walked group).specs)

  filter-uncapped :
      (group : String)
      → (filter is_leader (uncapped group) ≡ (walked group).specs)
        × (filter (λ s. s.approver_level == branch_admin) (uncapped group) ≡ admin_of group)
  filter-uncapped group =
      let specs = (walked group).specs in
      let (own, none_admin) =
        filter-leaders specs (leaders_are_leaders specs (walked-IsWalked group).leaders) in
      let (no_leader, admins) =
        filter-admins (admin_of group) (admin_steps-All group (length specs)) in
      (
        filter-append is_leader specs (admin_of group)
            ∙ ap (λ l. l ++ filter is_leader (admin_of group)) own
            ∙ ap (λ l. specs ++ l) no_leader
            ∙ append-nil specs,
        filter-append (λ (s : StepSpec). s.approver_level == branch_admin) specs (admin_of group)
            ∙ ap
                (λ l.
                  l ++ filter (λ (s : StepSpec). s.approver_level == branch_admin) (admin_of group))
                none_admin
            ∙ admins,
      )

  cap_depth-some :
      (specs : List StepSpec) (n : ℕ)
      → policy.max_approval_levels ≡ some (pos n)
      → cap_depth requested_by policy gateway specs
        ≡ reindex 0 (
            keep_within n (filter is_leader specs)
            ++ filter (λ s. s.approver_level == branch_admin) specs)
  unfolding cap_depth
  cap_depth-some specs n cap = rw cap refl

  pub cap_depth-pos :
      (group : String) (n : ℕ)
      → policy.max_approval_levels ≡ some (pos n)
      → cap_depth requested_by policy gateway (uncapped group)
        ≡ reindex 0 (keep_within n (walked group).specs ++ admin_of group)
  cap_depth-pos group n cap =
      let (leaders, admins) = filter-uncapped group in
      cap_depth-some (uncapped group) n cap
      ∙ ap
          (λ l. reindex 0 (
            keep_within n l
            ++ filter (λ (s : StepSpec). s.approver_level == branch_admin) (uncapped group)))
          leaders
      ∙ ap (λ l. reindex 0 (keep_within n (walked group).specs ++ l)) admins

  admin_steps-numbered :
      (group : String) (idx : ℕ)
      → reindex idx (admin_steps requested_by policy gateway group idx)
        ≡ admin_steps requested_by policy gateway group idx
  unfolding admin_steps reindex
  admin_steps-numbered group idx =
      let branch = gateway.group_branch group in
      let admin = gateway.branch_admin_member (or_text branch "") in
      elim (Bool-cases policy.require_branch_admin_final) [
        | inr free ↦ rw free refl
        | inl required ↦ elim (Bool-cases (truthy branch && truthy admin)) [
          | inl there ↦ rw (required, there) refl
          | inr missing ↦ rw (required, missing) refl
        ]
      ]

  uncapped-numbered : (group : String) → reindex 0 (uncapped group) ≡ uncapped group
  uncapped-numbered group =
      reindex-append 0 (walked group).specs (admin_of group)
      ∙ ap (λ l. l ++ reindex (0 + length (walked group).specs) (admin_of group))
          (walked-IsWalked group).numbered
      ∙ ap (λ l. (walked group).specs ++ l) numbered
    where
      numbered : reindex (0 + length (walked group).specs) (admin_of group) ≡ admin_of group
      numbered =
          ap (λ n. reindex n (admin_of group)) (omega arith)
          ∙ admin_steps-numbered group (length (walked group).specs)

  pub shape :
      (group : String)
      → (kept : List StepSpec) × (cap_depth requested_by policy gateway (uncapped group)
          ≡ reindex 0 (kept ++ admin_of group))
        × All LeaderRule kept
        × IsDistinct (map member_of kept)
  shape group =
      let w = walked group in
      let sound = walked-IsWalked group in
      let whole : (cap_depth requested_by policy gateway (uncapped group) ≡ uncapped group)
          → (kept : List StepSpec) × (cap_depth requested_by policy gateway (uncapped group)
              ≡ reindex 0 (kept ++ admin_of group))
            × All LeaderRule kept
            × IsDistinct (map member_of kept) =
        λ same. (
          w.specs,
          same ∙ sym (uncapped-numbered group),
          sound.leaders,
          members-IsDistinct w sound,
        ) in
      elim (cap-cases policy.max_approval_levels) [
        | inl (inl cap) ↦ whole (unfold cap_depth in rw cap refl)
        | inl (inr (n, cap)) ↦ whole (unfold cap_depth in rw cap refl)
        | inr (n, cap) ↦ (
          keep_within n w.specs,
          cap_depth-pos group n cap,
          keep_within-All LeaderRule n w.specs sound.leaders,
          keep_within-IsDistinct n w.specs (members-IsDistinct w sound),
        )
      ]

  pub resolved :
      (group : String) (steps : List StepSpec)
      → resolve_approval_chain requested_by policy gateway group ≡ ok steps
      → (cap_depth requested_by policy gateway (uncapped group) ≡ steps)
        × (any is_pending steps ≡ true)
  unfolding resolve_approval_chain
  resolved group steps h =
      let (u, named, rest) = >>=-eq-ok (guard (not (group == "")) _) _ h in
      let (v, asked, rest') = >>=-eq-ok (guard (not (requested_by == "")) _) _ rest in
      let (x, some_pending, same) =
        >>=-eq-ok
          (guard (any is_pending (cap_depth requested_by policy gateway (uncapped group))) _) _
          rest' in
      let chain : cap_depth requested_by policy gateway (uncapped group) ≡ steps =
        ok_injective same in
      (chain, ap (any is_pending) (sym chain) ∙ guard-eq-ok _ _ some_pending)
