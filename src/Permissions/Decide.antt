-- ===== src/Permissions/Decide.antt =====
-- Who decides an approval step, and the guards of both axes.
use flock_os.Permissions.{
  PermissionGateway, DecidableStep, is_bypass_user, is_led, resolve_leader_scope, scope_of_member,
  assert_branch_scope, assert_group_scope, has_branch_access, is_resolved_approver,
  can_decide_approval_step,
}
use flock_os.Permissions.Group.{below, assert_group_scope_lem, by_role}
use flock_os.Base.{
  conj, content, ◌≡◌, refl, sym, ap, ◌∙◌, String, string_eq, option_eq, ◌==◌, eq_of_beq, Bool,
  Bool-cases, true, false, not, ◌||◌, ◌&&◌, ◌⊎◌, inl, inr, Option, some, ok, contains, truthy,
  or_text, if◌then◌else◌, arith,
}

-- The approver of a step: by the user, by the member of the user, or, for the step of the branch
-- admin, by the role.
pub data IsApprover (step : DecidableStep) (user : String) (gateway : PermissionGateway)
    : Type 0 where
  by_user : step.approver_user ≡ some user → IsApprover step user gateway
  by_member :
      (member : String)
      → gateway.resolve_member_for_user user ≡ some member
      → step.approver_member ≡ some member
      → IsApprover step user gateway
  by_admin_role :
      step.approver_level ≡ some "Branch Admin"
      → contains (gateway.get_user_roles user) "Flock Branch Admin" ≡ true
      → IsApprover step user gateway

one_of : (a b c : Bool) → (a || b || c) ≡ true → (a ≡ true) ⊎ ((b ≡ true) ⊎ (c ≡ true))
one_of true b c h = inl refl
one_of false true c h = inr (inl refl)
one_of false false true h = inr (inr refl)
one_of false false false h = absurd (ground (arith, h))

three_checks :
    (a b c d e : Bool)
    → (if not a
        then false
        else if not b
        then false
        else if c
        then (if d then true else e)
        else true)
      ≡ true
    → (a ≡ true) × (b ≡ true) × ((c && (not d && not e)) ≡ false)
three_checks a b c d e h = (ground (arith, h), ground (arith, h), ground (arith, h))

ruled_out :
    (a b c d : Bool)
    → (a && not b && (not c && not d)) ≡ false
    → a ≡ true
    → b ≡ false
    → c ≡ false
    → d ≡ true
ruled_out a b c d h p q r = ground (arith, h, p, q, r)

module _ (step : DecidableStep) (user : String) (gateway : PermissionGateway) where
  is_resolved_approver-IsApprover :
      is_resolved_approver step user gateway ≡ true → IsApprover step user gateway
  unfolding is_resolved_approver
  is_resolved_approver-IsApprover h =
      let member = gateway.resolve_member_for_user user in
      elim (one_of (truthy step.approver_user && step.approver_user == some user)
        (truthy step.approver_member && (truthy member && step.approver_member == member))
        (step.approver_level == some "Branch Admin"
          && (contains (gateway.get_user_roles user) "Flock Branch Admin"
              && has_branch_access step user gateway))
        h) [
          | inl named ↦
              let (given, same) =
                conj (truthy step.approver_user) (step.approver_user == some user) named in
              by_user (eq_of_beq {a = step.approver_user} same)
          | inr (inl named) ↦
              let (given, rest) =
                conj (truthy step.approver_member) (truthy member && step.approver_member == member)
                  named in
              let (linked, same) = conj (truthy member) (step.approver_member == member) rest in
              let (m, is_m, filled, text) = content member linked in
              by_member m is_m (eq_of_beq {a = step.approver_member} same ∙ is_m)
          | inr (inr admin) ↦
              let (level, rest) =
                conj (step.approver_level == some "Branch Admin")
                  (contains (gateway.get_user_roles user) "Flock Branch Admin"
                    && has_branch_access step user gateway)
                  admin in
              let (role, access) =
                conj (contains (gateway.get_user_roles user) "Flock Branch Admin")
                  (has_branch_access step user gateway) rest in
              by_admin_role (eq_of_beq {a = step.approver_level} level) role
        ]

  scope_unbypassed :
      is_bypass_user (gateway.get_user_roles user) ≡ false
      → resolve_leader_scope gateway user (some (gateway.get_user_roles user))
        ≡ scope_of_member gateway (gateway.resolve_member_for_user user)
  unfolding resolve_leader_scope
  scope_unbypassed plain = rw plain refl

  decision_checks :
      can_decide_approval_step step user gateway ≡ true
      → (is_resolved_approver step user gateway ≡ true)
        × (has_branch_access step user gateway ≡ true)
        × ((truthy step.doc_group
              && not (step.approver_level == some "Branch Admin")
              && (not (is_bypass_user (gateway.get_user_roles user))
                  && not (
                      is_led
                        (resolve_leader_scope gateway user
                          (some (gateway.get_user_roles user))).led_bounds
                        (gateway.fetch_group_bounds (or_text step.doc_group "")))))
            ≡ false)
  unfolding can_decide_approval_step
  decision_checks h =
      three_checks (is_resolved_approver step user gateway) (has_branch_access step user gateway)
        (truthy step.doc_group && not (step.approver_level == some "Branch Admin"))
        (is_bypass_user (gateway.get_user_roles user))
        (is_led (resolve_leader_scope gateway user (some (gateway.get_user_roles user))).led_bounds
          (gateway.fetch_group_bounds (or_text step.doc_group "")))
        h

  -- Who decides a step is its approver, by the user, by the linked member or by the role of the branch
  -- admin, and passes the guard of the branch axis for the branch of the step.
  pub can_decide_approval_step-IsApprover :
      can_decide_approval_step step user gateway ≡ true
      → IsApprover step user gateway × (assert_branch_scope step.doc_branch user gateway ≡ ok tt)
  can_decide_approval_step-IsApprover h =
      let (approver, access, group) = decision_checks h in
      (is_resolved_approver-IsApprover approver, unfold assert_branch_scope in rw access refl)

  -- Who decides a step of a group, other than the step of the branch admin, passes the guard of the
  -- group axis for the rows of that group, whichever member they are about.
  pub can_decide_approval_step-group :
      (doc_member : Option String)
      → can_decide_approval_step step user gateway ≡ true
      → truthy step.doc_group ≡ true
      → (step.approver_level == some "Branch Admin") ≡ false
      → assert_group_scope step.doc_group doc_member user gateway ≡ ok tt
  can_decide_approval_step-group doc_member h grouped level =
      let (approver, access, group) = decision_checks h in
      (assert_group_scope_lem step.doc_group doc_member user gateway).1
        (elim (Bool-cases (is_bypass_user (gateway.get_user_roles user))) [
          | inl role ↦ by_role role
          | inr plain ↦
              let (g, is_g, given, text) = content step.doc_group grouped in
              let led : is_led
                    (scope_of_member gateway (gateway.resolve_member_for_user user)).led_bounds
                    (gateway.fetch_group_bounds (or_text step.doc_group ""))
                  ≡ true =
                ap
                  (λ x.
                    is_led x.led_bounds (gateway.fetch_group_bounds (or_text step.doc_group "")))
                  (sym (scope_unbypassed plain))
                ∙ ruled_out (truthy step.doc_group) (step.approver_level == some "Branch Admin")
                    (is_bypass_user (gateway.get_user_roles user))
                    (is_led
                      (resolve_leader_scope gateway user
                        (some (gateway.get_user_roles user))).led_bounds
                      (gateway.fetch_group_bounds (or_text step.doc_group "")))
                    group grouped level plain in
              below user gateway (gateway.resolve_member_for_user user) step.doc_group doc_member g
                refl is_g given
                (ap
                    (λ x.
                      is_led
                        (scope_of_member gateway (gateway.resolve_member_for_user user)).led_bounds
                        (gateway.fetch_group_bounds x))
                    (sym text)
                  ∙ led)
        ])
