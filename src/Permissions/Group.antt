-- ===== src/Permissions/Group.antt =====
-- The guard of the group axis and the rows that the rules of the axis name.
use flock_os.Permissions.Checks.{found, any-found, four_tests, pass_one}
use flock_os.Permissions.{
  PermissionError, lacks_group_scope, GroupBounds, PermissionGateway, is_bypass_user,
  scope_of_member, resolve_leader_scope, is_within, is_led, is_none, assert_group_scope,
}
use flock_os.Base.{
  conj, content, ℕ, ◌≤◌, ◌≡◌, refl, sym, ap, ◌∙◌, ◌↔◌, String, string_eq, option_eq, ◌==◌,
  eq_of_beq, beq_self, Bool-cases, Option-cases, true, false, ◌&&◌, ◌⊎◌, inl, inr, Option, none,
  some, Result, ok, err, contains, any, truthy, or_text, get_elem?, if◌then◌else◌, arith,
}

-- The rows that a user may touch on the group axis: by a role that bypasses it, where the row has no
-- anchor, the user's own row, a row of a group below one that the user leads, and a row of a group
-- that the user belongs to.
pub data IsInGroupScope (user : String) (gateway : PermissionGateway)
    (doc_group doc_member : Option String) : Type 0 where
  by_role :
      is_bypass_user (gateway.get_user_roles user) ≡ true
      → IsInGroupScope user gateway doc_group doc_member
  unanchored :
      doc_group ≡ none → doc_member ≡ none → IsInGroupScope user gateway doc_group doc_member
  own_row :
      (member : String)
      → gateway.resolve_member_for_user user ≡ some member
      → doc_member ≡ some member
      → (member == "") ≡ false
      → IsInGroupScope user gateway doc_group doc_member
  below_led :
      (member group : String) (i : ℕ) (led bounds : GroupBounds)
      → gateway.resolve_member_for_user user ≡ some member
      → doc_group ≡ some group
      → (group == "") ≡ false
      → gateway.fetch_group_bounds group ≡ some bounds
      → get_elem? (gateway.fetch_led_group_bounds member) i ≡ some led
      → led.lft ≤ bounds.lft
      → bounds.rgt ≤ led.rgt
      → IsInGroupScope user gateway doc_group doc_member
  joined :
      (member group : String)
      → gateway.resolve_member_for_user user ≡ some member
      → doc_group ≡ some group
      → (group == "") ≡ false
      → contains (gateway.fetch_joined_group_names member) group ≡ true
      → IsInGroupScope user gateway doc_group doc_member

module _ (user : String) (gateway : PermissionGateway) where
  -- The guard where no role bypasses the axis, by the member and the anchors.
  guard_row : Option String → Option String → Option String → Result PermissionError (Unit {0})
  guard_row member doc_group doc_member =
      let scope = scope_of_member gateway member in
      let group = or_text doc_group "" in
      if is_none doc_group && is_none doc_member
      then ok tt
      else if truthy scope.member && (truthy doc_member && doc_member == scope.member)
      then ok tt
      else if truthy doc_group && is_led scope.led_bounds (gateway.fetch_group_bounds group)
      then ok tt
      else if truthy doc_group && contains scope.joined_groups group
      then ok tt
      else err (lacks_group_scope user doc_group doc_member)

  assert_group_scope-unbypassed :
      (member doc_group doc_member : Option String)
      → gateway.resolve_member_for_user user ≡ member
      → is_bypass_user (gateway.get_user_roles user) ≡ false
      → assert_group_scope doc_group doc_member user gateway ≡ guard_row member doc_group doc_member
  unfolding assert_group_scope resolve_leader_scope guard_row
  assert_group_scope-unbypassed member doc_group doc_member m plain = rw (plain, m) refl

  assert_group_scope-bypassed :
      (doc_group doc_member : Option String)
      → is_bypass_user (gateway.get_user_roles user) ≡ true
      → assert_group_scope doc_group doc_member user gateway ≡ ok tt
  unfolding assert_group_scope
  assert_group_scope-bypassed doc_group doc_member role = rw role refl

content-truthy :
    (s : String) → (s == "") ≡ false → (truthy (some s) ≡ true) × (or_text (some s) "" ≡ s)
content-truthy s given = (ground (arith, given), ground (arith, given))

module _ (user : String) (gateway : PermissionGateway) where
  pub below :
      (member : Option String) (doc_group doc_member : Option String) (group : String)
      → gateway.resolve_member_for_user user ≡ member
      → doc_group ≡ some group
      → (group == "") ≡ false
      → is_led (scope_of_member gateway member).led_bounds (gateway.fetch_group_bounds group) ≡ true
      → IsInGroupScope user gateway doc_group doc_member
  below none doc_group doc_member group m g given led =
      elim (Option-cases (gateway.fetch_group_bounds group)) [
        | inl unknown ↦ let e : ⊥ = ground (arith, led, unknown) in absurd e
        | inr (bounds, b) ↦ let e : ⊥ = ground (arith, led, b) in absurd e
      ]
  below (some member) doc_group doc_member group m g given led =
      elim (Option-cases (gateway.fetch_group_bounds group)) [
        | inl unknown ↦ let e : ⊥ = ground (arith, led, unknown) in absurd e
        | inr (bounds, b) ↦
            let some_led : any (is_within bounds) (gateway.fetch_led_group_bounds member) ≡ true =
              ground (arith, led, b) in
            let (i, x, at, within) =
              found (is_within bounds) (gateway.fetch_led_group_bounds member) some_led in
            below_led member group i x bounds m g given b at (ground (arith, within))
              (ground (arith, within))
      ]

  own :
      (member doc_group doc_member : Option String)
      → gateway.resolve_member_for_user user ≡ member
      → (truthy (scope_of_member gateway member).member
          && (truthy doc_member && doc_member == (scope_of_member gateway member).member))
        ≡ true
      → IsInGroupScope user gateway doc_group doc_member
  own none doc_group doc_member m h = let e : ⊥ = ground (arith, h) in absurd e
  own (some member) doc_group doc_member m h =
      let (named, same) =
        conj (truthy (some member)) (truthy doc_member && doc_member == some member) h in
      let (given, matches) = conj (truthy doc_member) (doc_member == some member) same in
      let (s, is_s, filled, text) = content (some member) named in
      own_row member m (eq_of_beq {a = doc_member} matches) (ground (arith, is_s, filled))

  in_joined :
      (member doc_group doc_member : Option String) (group : String)
      → gateway.resolve_member_for_user user ≡ member
      → doc_group ≡ some group
      → (group == "") ≡ false
      → contains (scope_of_member gateway member).joined_groups group ≡ true
      → IsInGroupScope user gateway doc_group doc_member
  in_joined none doc_group doc_member group m g given h = let e : ⊥ = ground (arith, h) in absurd e
  in_joined (some member) doc_group doc_member group m g given h = joined member group m g given h

  no_anchor :
      (doc_group doc_member : Option String)
      → (is_none doc_group && is_none doc_member) ≡ true
      → IsInGroupScope user gateway doc_group doc_member
  no_anchor none none h = unanchored refl refl
  no_anchor none (some m) h = let e : ⊥ = ground (arith, h) in absurd e
  no_anchor (some g) doc_member h = let e : ⊥ = ground (arith, h) in absurd e

  guard_row_sound :
      (member doc_group doc_member : Option String)
      → gateway.resolve_member_for_user user ≡ member
      → guard_row user gateway member doc_group doc_member ≡ ok tt
      → IsInGroupScope user gateway doc_group doc_member
  unfolding guard_row
  guard_row_sound member doc_group doc_member m h =
      let scope = scope_of_member gateway member in
      let group = or_text doc_group "" in
      elim (four_tests (is_none doc_group && is_none doc_member)
        (truthy scope.member && (truthy doc_member && doc_member == scope.member))
        (truthy doc_group && is_led scope.led_bounds (gateway.fetch_group_bounds group))
        (truthy doc_group && contains scope.joined_groups group)
        (lacks_group_scope user doc_group doc_member) h) [
          | inl blank ↦ no_anchor doc_group doc_member blank
          | inr (inl mine) ↦ own member doc_group doc_member m mine
          | inr (inr (inl led)) ↦
              let (grouped, l) =
                conj (truthy doc_group) (is_led scope.led_bounds (gateway.fetch_group_bounds group))
                  led in
              let (g, is_g, given, text) = content doc_group grouped in
              below member doc_group doc_member g m is_g given
                (ap (λ x. is_led scope.led_bounds (gateway.fetch_group_bounds x)) (sym text) ∙ l)
          | inr (inr (inr j)) ↦
              let (grouped, l) = conj (truthy doc_group) (contains scope.joined_groups group) j in
              let (g, is_g, given, text) = content doc_group grouped in
              in_joined member doc_group doc_member g m is_g given
                (ap (λ x. contains scope.joined_groups x) (sym text) ∙ l)
        ]

  passes :
      (member doc_group doc_member : Option String)
      → ((is_none doc_group && is_none doc_member) ≡ true)
        ⊎ (((truthy (scope_of_member gateway member).member
                && (truthy doc_member && doc_member == (scope_of_member gateway member).member))
              ≡ true)
            ⊎ (((truthy doc_group
                    && is_led
                        (scope_of_member gateway member).led_bounds
                        (gateway.fetch_group_bounds (or_text doc_group "")))
                  ≡ true)
                ⊎ ((truthy doc_group
                      && contains
                          (scope_of_member gateway member).joined_groups
                          (or_text doc_group ""))
                    ≡ true)))
      → guard_row user gateway member doc_group doc_member ≡ ok tt
  unfolding guard_row
  passes member doc_group doc_member h =
      let scope = scope_of_member gateway member in
      let group = or_text doc_group "" in
      pass_one (is_none doc_group && is_none doc_member)
        (truthy scope.member && (truthy doc_member && doc_member == scope.member))
        (truthy doc_group && is_led scope.led_bounds (gateway.fetch_group_bounds group))
        (truthy doc_group && contains scope.joined_groups group)
        (lacks_group_scope user doc_group doc_member) h

  guard_row_complete :
      (doc_group doc_member : Option String)
      → IsInGroupScope user gateway doc_group doc_member
      → is_bypass_user (gateway.get_user_roles user) ≡ false
      → guard_row user gateway (gateway.resolve_member_for_user user) doc_group doc_member ≡ ok tt
  guard_row_complete doc_group doc_member (by_role role) plain =
      let e : ⊥ = ground (arith, role, plain) in absurd e
  guard_row_complete doc_group doc_member (unanchored g m) plain =
      passes (gateway.resolve_member_for_user user) doc_group doc_member (inl (rw (g, m) refl))
  guard_row_complete doc_group doc_member (own_row member m same given) plain =
      let mine : (truthy (some member) && (truthy doc_member && doc_member == some member)) ≡ true =
        rw same (ground (arith, given, beq_self {A = String} member)) in
      rw m (passes (some member) doc_group doc_member (inr (inl mine)))
  guard_row_complete doc_group doc_member
        (below_led member group i led bounds m g given b at low high) plain =
      let within : any (is_within bounds) (gateway.fetch_led_group_bounds member) ≡ true =
        any-found (is_within bounds) (gateway.fetch_led_group_bounds member) i led at
          (ground (arith, low, high)) in
      let led_test : (truthy doc_group
            && is_led (gateway.fetch_led_group_bounds member)
                (gateway.fetch_group_bounds (or_text doc_group "")))
          ≡ true =
        rw (g, given, b, within) refl in
      rw m (passes (some member) doc_group doc_member (inr (inr (inl led_test))))
  guard_row_complete doc_group doc_member (joined member group m g given there) plain =
      let joined_test : (truthy doc_group
            && contains (gateway.fetch_joined_group_names member) (or_text doc_group ""))
          ≡ true =
        rw (g, given, there) refl in
      rw m (passes (some member) doc_group doc_member (inr (inr (inr joined_test))))

-- The guard lets a user through exactly to the rows in the user's scope, which are given by a role
-- that bypasses the axis, a row without an anchor, the user's own row, a group below a led one, or a
-- group that the user belongs to.
pub assert_group_scope_lem :
    (doc_group doc_member : Option String) (user : String) (gateway : PermissionGateway)
    → (assert_group_scope doc_group doc_member user gateway ≡ ok tt)
      ↔ IsInGroupScope user gateway doc_group doc_member
assert_group_scope_lem doc_group doc_member user gateway =
    elim (Bool-cases (is_bypass_user (gateway.get_user_roles user))) [
      | inl role ↦ (
        λ h. by_role role,
        λ h. assert_group_scope-bypassed user gateway doc_group doc_member role,
      )
      | inr plain ↦
          let same =
            assert_group_scope-unbypassed user gateway (gateway.resolve_member_for_user user)
              doc_group doc_member refl plain in
          (
            λ h.
                guard_row_sound user gateway (gateway.resolve_member_for_user user) doc_group
                  doc_member refl (sym same ∙ h),
            λ h. same ∙ guard_row_complete user gateway doc_group doc_member h plain,
          )
    ]
