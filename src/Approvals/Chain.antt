-- ===== src/Approvals/Chain.antt =====
-- The chain of approvers that a request resolves to.
use flock_os.Approvals.Shape.{
  leaders_are_leaders, admin_steps-All, walked, uncapped, admin_of, cap_depth-pos, shape, resolved,
  LeaderRule,
}
use flock_os.Approvals.Cap.{
  member_of, is_leader, IsAdminStep, count-keep_within, reindex-reindex, members-reindex,
  count-reindex, filter-leaders, filter-admins,
}
use flock_os.Approvals.{
  ApprovalPolicy, ChainGateway, StepSpec, branch_admin, is_pending, admin_steps, keep_within,
  reindex, cap_depth, resolve_approval_chain,
}
use flock_os.Approvals.Walk.{IsLeaderStep, reindex-append}
use flock_os.Base.Int.{pos}
use flock_os.Base.{
  ℕ, suc, ◌+◌, ◌≤◌, ◌≡◌, ◌⊎◌, refl, sym, ap, ◌∙◌, subst, String, string_eq, option_eq, ◌==◌,
  eq_iff_lem, Bool, true, false, ◌&&◌, inl, inr, List, [], ◌∷◌, ◌++◌, map, append-nil, none, some,
  ok, IsDistinct, All, All-append, All-mono, any, count, count-append, filter, filter-append,
  length, arith,
}

module _ (requested_by : String) (policy : ApprovalPolicy) (gateway : ChainGateway) where
  abbrev IsStep : StepSpec → Type 0
  IsStep s = LeaderRule requested_by policy gateway s ⊎ IsAdminStep s

  reindex-All : (i : ℕ) (xs : List StepSpec) → All IsStep xs → All IsStep (reindex i xs)
  unfolding reindex
  reindex-All i [] h = tt
  reindex-All i (x ∷ xs) (inl rule, h) =
      (inl (record { level = rule.level; status = rule.status }), reindex-All (suc i) xs h)
  reindex-All i (x ∷ xs) (inr rule, h) =
      (inr (record { level = rule.level; status = rule.status }), reindex-All (suc i) xs h)

  -- The steps of a resolved chain are numbered from 0 in order; each is a leader's, skipped exactly
  -- when the leader asks and may not approve alone, or the branch admin's and pending; no leader has
  -- two steps, and some step is pending.
  pub resolve_approval_chain_lem :
      (group : String) (steps : List StepSpec)
      → resolve_approval_chain requested_by policy gateway group ≡ ok steps
      → (reindex 0 steps ≡ steps)
        × All (λ s. IsLeaderStep requested_by policy gateway s ⊎ IsAdminStep s) steps
        × IsDistinct (map member_of (filter is_leader steps))
        × (any is_pending steps ≡ true)
  resolve_approval_chain_lem group steps h =
      let (same, pending) = resolved requested_by policy gateway group steps h in
      let (kept, form, rules, distinct) = shape requested_by policy gateway group in
      let eq : reindex 0 (kept ++ admin_of requested_by policy gateway group) ≡ steps =
        sym form ∙ same in
      let admins =
        admin_steps-All requested_by policy gateway group
          (length (walked requested_by policy gateway group).specs) in
      (
        ap (λ l. reindex 0 l) (sym eq)
            ∙ reindex-reindex 0 0 (kept ++ admin_of requested_by policy gateway group)
            ∙ eq,
        subst (λ l. All IsStep l) eq
            (reindex-All 0 (kept ++ admin_of requested_by policy gateway group) (
              All-append IsStep kept (admin_of requested_by policy gateway group)
                (All-mono kept (λ s r. inl r) rules)
                (All-mono (admin_of requested_by policy gateway group) (λ s r. inr r) admins))),
        subst (λ l. IsDistinct (map member_of (filter is_leader l))) eq
            (subst (λ l. IsDistinct l)
              (sym (
                members-reindex 0 (kept ++ admin_of requested_by policy gateway group)
                ∙ ap (map member_of) (
                    filter-append is_leader kept (admin_of requested_by policy gateway group)
                    ∙ ap (λ l. l ++ filter is_leader (admin_of requested_by policy gateway group))
                        (filter-leaders kept
                          (leaders_are_leaders requested_by policy gateway kept rules)).0
                    ∙ ap (λ l. kept ++ l)
                        (filter-admins (admin_of requested_by policy gateway group) admins).0
                    ∙ append-nil kept)))
              distinct),
        pending,
      )

  -- Under a cap of `n` levels, a resolved chain has at most `n` pending leader steps.
  pub resolve_approval_chain-cap :
      (group : String) (steps : List StepSpec) (n : ℕ)
      → policy.max_approval_levels ≡ some (pos n)
      → resolve_approval_chain requested_by policy gateway group ≡ ok steps
      → count (λ s. is_leader s && is_pending s) steps ≤ n
  resolve_approval_chain-cap group steps n cap h =
      let kept = keep_within n (walked requested_by policy gateway group).specs in
      let pending_leader : StepSpec → Bool = λ s. is_leader s && is_pending s in
      let form : reindex 0 (kept ++ admin_of requested_by policy gateway group) ≡ steps =
        sym (cap_depth-pos requested_by policy gateway group n cap)
        ∙ (resolved requested_by policy gateway group steps h).0 in
      omega (
        arith,
        ap (count pending_leader) form,
        count-reindex 0 (kept ++ admin_of requested_by policy gateway group),
        count-append pending_leader kept (admin_of requested_by policy gateway group),
        count-pending_leader kept,
        count-admins (admin_of requested_by policy gateway group) (
            admin_steps-All requested_by policy gateway group
              (length (walked requested_by policy gateway group).specs)),
        count-keep_within n (walked requested_by policy gateway group).specs,
      )
    where
      count-pending_leader :
          (xs : List StepSpec) → count (λ s. is_leader s && is_pending s) xs ≤ count is_pending xs
      count-pending_leader [] = omega arith
      count-pending_leader (x ∷ xs) = ground (arith, count-pending_leader xs)

      count-admins :
          (xs : List StepSpec)
          → All IsAdminStep xs
          → count (λ s. is_leader s && is_pending s) xs ≡ 0
      count-admins [] h' = refl
      count-admins (x ∷ xs) h' =
          ground (arith, count-admins xs h'.1, h'.0.level, eq_iff_lem x.approver_level branch_admin)

  resolve-pending :
      (group : String) (steps : List StepSpec)
      → (group == "") ≡ false
      → (requested_by == "") ≡ false
      → cap_depth requested_by policy gateway (uncapped requested_by policy gateway group) ≡ steps
      → any is_pending steps ≡ true
      → resolve_approval_chain requested_by policy gateway group ≡ ok steps
  resolve-pending group steps grouped asked same pending =
      let chain_pending : any is_pending
            (cap_depth requested_by policy gateway (uncapped requested_by policy gateway group))
          ≡ true =
        ap (any is_pending) same ∙ pending in
      unfold resolve_approval_chain in
      rw (grouped, asked, chain_pending) (ap (λ (l : List StepSpec). ok l) same)

  abbrev admin_step : String → String → ℕ → StepSpec
  admin_step branch admin idx = record {
    idx = idx;
    approver_level = branch_admin;
    approver_member = some admin;
    approver_user = gateway.branch_admin_user branch;
    approver_group = none;
    step_status = "Pending";
  }

  admin_steps-there :
      (group branch admin : String) (idx : ℕ)
      → policy.require_branch_admin_final ≡ true
      → gateway.group_branch group ≡ some branch
      → (branch == "") ≡ false
      → gateway.branch_admin_member branch ≡ some admin
      → (admin == "") ≡ false
      → admin_steps requested_by policy gateway group idx ≡ admin_step branch admin idx ∷ []
  unfolding admin_steps
  admin_steps-there group branch admin idx required of_branch branched of_admin named =
      rw (required, of_branch, branched, of_admin, named) refl

  any-last :
      (xs : List StepSpec) (x : StepSpec)
      → is_pending x ≡ true
      → any is_pending (xs ++ x ∷ []) ≡ true
  any-last [] x h = ground (arith, h)
  any-last (y ∷ ys) x h = ground (arith, any-last ys x h)

  -- Where the policy asks for the branch admin and the branch has one, a request that names its
  -- group and its author resolves to a chain whose last step is the admin's and pending, whatever
  -- the cap, and also when the admin is the author.
  pub resolve_approval_chain-admin :
      (group branch admin : String)
      → policy.require_branch_admin_final ≡ true
      → (group == "") ≡ false
      → (requested_by == "") ≡ false
      → gateway.group_branch group ≡ some branch
      → (branch == "") ≡ false
      → gateway.branch_admin_member branch ≡ some admin
      → (admin == "") ≡ false
      → (before : List StepSpec) × (last : StepSpec) × (resolve_approval_chain requested_by policy
            gateway group
          ≡ ok (before ++ last ∷ []))
        × (last.approver_member ≡ some admin)
        × (last.approver_level ≡ branch_admin)
        × (last.step_status ≡ "Pending")
  resolve_approval_chain-admin group branch admin required grouped asked of_branch branched of_admin
        named =
      let (kept, form, rules, distinct) = shape requested_by policy gateway group in
      let last = admin_step branch admin (0 + length kept) in
      let closing : admin_of requested_by policy gateway group
          ≡ admin_step branch admin (length (walked requested_by policy gateway group).specs) ∷ [] =
        admin_steps-there group branch admin
          (length (walked requested_by policy gateway group).specs) required of_branch branched
          of_admin named in
      let same : cap_depth requested_by policy gateway (uncapped requested_by policy gateway group)
          ≡ reindex 0 kept ++ last ∷ [] =
        form
        ∙ ap (λ l. reindex 0 (kept ++ l)) closing
        ∙ reindex-append 0 kept
            (admin_step branch admin (length (walked requested_by policy gateway group).specs) ∷ [])
        ∙ (unfold reindex in refl) in
      (
        reindex 0 kept,
        last,
        resolve-pending group (reindex 0 kept ++ last ∷ []) grouped asked same
            (any-last (reindex 0 kept) last refl),
        refl,
        refl,
        refl,
      )
