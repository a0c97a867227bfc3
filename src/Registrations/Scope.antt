-- ===== src/Registrations/Scope.antt =====
-- The scope rules of a registration window, and a member they let in.
use flock_os.Registrations.{
  RegistrationError, unknown_scope, ScopeGateway, registration_scopes, closed_scopes, anchors,
  scope_rule, is_member_in_scope, RegistrationWindow, is_registration_window_open,
  is_gathering_registration_eligible,
}
use flock_os.Base.Texts.{text_ltb}
use flock_os.Base.{
  ◌≡◌, refl, sym, ap, subst, String, string_eq, option_eq, ◌==◌, eq_of_beq, Bool, Bool-cases, true,
  false, not, ◌||◌, ◌&&◌, inl, inr, List, [], ◌∷◌, Result, ok, err, contains, any, truthy, or_text,
  if◌then◌else◌, arith,
}

gate :
    (a b : Bool) (r : Result RegistrationError Bool)
    → (if a then ok false else if b then ok false else r) ≡ ok true
    → (a ≡ false) × (b ≡ false) × (r ≡ ok true)
gate a b r h = (ground (arith, h), ground (arith, h), ground (arith, h))

neither : (a b : Bool) → (a || b) ≡ false → (a ≡ false) × (b ≡ false)
neither a b h = (ground (arith, h), ground (arith, h))

both_true :
    (a b : Bool)
    → ◌≡◌ {A = Result RegistrationError Bool} (ok (a && b)) (ok true)
    → (a ≡ true) × (b ≡ true)
both_true a b h = (ground (arith, h), ground (arith, h))

open_gate :
    (a b c d : Bool)
    → (if a then false else if not b then false else if c then false else if d then false else true)
      ≡ true
    → (b ≡ true) × (c ≡ false) × (d ≡ false)
open_gate a b c d h = (ground (arith, h), ground (arith, h), ground (arith, h))

only_where :
    (b : Bool) (r : Result RegistrationError Bool)
    → (if b then r else ok false) ≡ ok true
    → (b ≡ true) × (r ≡ ok true)
only_where b r h = (ground (arith, h), ground (arith, h))

any-contains :
    (p : String → Bool) (xs : List String) (x : String)
    → contains xs x ≡ true
    → p x ≡ true
    → any p xs ≡ true
any-contains p [] x h k = h
any-contains p (y ∷ xs) x h k = elim (Bool-cases (y == x)) [
  | inl same ↦
      let here : p y ≡ true = subst (λ z. p z ≡ true) (sym (eq_of_beq {a = y} same)) k in
      rw here refl
  | inr other ↦
      let there : any p xs ≡ true = any-contains p xs x (rest (y == x) (contains xs x) h other) k in
      either (p y) (any p xs) there
]
  where
    rest : (a b : Bool) → (a || b) ≡ true → a ≡ false → b ≡ true
    rest a b q r = ground (arith, q, r)

    either : (a b : Bool) → b ≡ true → (a || b) ≡ true
    either a b q = ground (arith, q)

module _ (member gathering : String) (gateway : ScopeGateway) where
  scope_rule-known :
      (scope : String)
      → scope_rule member gathering gateway scope ≡ ok true
      → contains registration_scopes scope ≡ true
  scope_rule-known scope h = elim (Bool-cases (scope == "Own Group")) [
    | inl here ↦ known "Own Group" here refl
    | inr not0 ↦ elim (Bool-cases (scope == "Group Subtree")) [
      | inl here ↦ known "Group Subtree" here refl
      | inr not1 ↦ elim (Bool-cases (scope == "Branch")) [
        | inl here ↦ known "Branch" here refl
        | inr not2 ↦ elim (Bool-cases (scope == "Branch Subtree")) [
          | inl here ↦ known "Branch Subtree" here refl
          | inr not3 ↦ elim (Bool-cases (scope == "Org-wide")) [
            | inl here ↦ known "Org-wide" here refl
            | inr not4 ↦ elim (Bool-cases (scope == "Invited Only")) [
              | inl here ↦ known "Invited Only" here refl
              | inr not5 ↦
                  let p : ⊥ = ground (arith, refused not0 not1 not2 not3 not4 not5, h) in absurd p
            ]
          ]
        ]
      ]
    ]
  ]
    where
      known :
          (x : String)
          → (scope == x) ≡ true
          → contains registration_scopes x ≡ true
          → contains registration_scopes scope ≡ true
      known x same there =
          subst (λ z. contains registration_scopes z ≡ true) (sym (eq_of_beq {a = scope} same))
            there

      refused :
          (scope == "Own Group") ≡ false
          → (scope == "Group Subtree") ≡ false
          → (scope == "Branch") ≡ false
          → (scope == "Branch Subtree") ≡ false
          → (scope == "Org-wide") ≡ false
          → (scope == "Invited Only") ≡ false
          → scope_rule member gathering gateway scope ≡ err (unknown_scope scope)
      refused a b c d e f = unfold scope_rule in rw (a, b, c, d, e, f) refl

  -- A member is in a scope only if the scope is one of the catalog other than `None`, and both the
  -- member and the gathering are named.
  pub is_member_in_scope-closed :
      (scope : String)
      → is_member_in_scope member gathering gateway scope ≡ ok true
      → (contains registration_scopes scope ≡ true)
        × (contains closed_scopes scope ≡ false)
        × ((member == "") ≡ false)
        × ((gathering == "") ≡ false)
  unfolding is_member_in_scope
  is_member_in_scope-closed scope h =
      let (named, allowed, rule) =
        gate (member == "" || gathering == "") (contains closed_scopes scope)
          (scope_rule member gathering gateway scope) h in
      let (of_member, of_gathering) = neither (member == "") (gathering == "") named in
      (scope_rule-known scope rule, allowed, of_member, of_gathering)

  -- A member of the gathering's own group is in the subtree of the group too, where the subtree of a
  -- group holds the group.
  pub is_member_in_scope-subtree :
      ((group : String) → contains (gateway.group_subtree group) group ≡ true)
      → is_member_in_scope member gathering gateway "Own Group" ≡ ok true
      → is_member_in_scope member gathering gateway "Group Subtree" ≡ ok true
  unfolding is_member_in_scope scope_rule
  is_member_in_scope-subtree rooted h =
      let group = (anchors member gathering gateway).group in
      let (named, allowed, rule) =
        gate (member == "" || gathering == "") false
          (ok (truthy group && contains (gateway.member_groups member) (or_text group ""))) h in
      let (grouped, there) =
        both_true (truthy group) (contains (gateway.member_groups member) (or_text group ""))
          rule in
      rw (named, grouped)
        (ap (λ (b : Bool). ok b)
          (any-contains (contains (gateway.group_subtree (or_text group "")))
            (gateway.member_groups member) (or_text group "") there (rooted (or_text group ""))))

-- Where a member may register, the gathering is approved, the time is within the set bounds of the
-- window, and the member is in the scope of the window.
pub is_gathering_registration_eligible_lem :
    (window : RegistrationWindow) (now member gathering : String) (gateway : ScopeGateway)
    → is_gathering_registration_eligible window now member gathering gateway ≡ ok true
    → (window.approval_status ≡ "Approved")
      × ((truthy window.opens_on && text_ltb now (or_text window.opens_on "")) ≡ false)
      × ((truthy window.closes_on && text_ltb (or_text window.closes_on "") now) ≡ false)
      × (is_member_in_scope member gathering gateway window.scope ≡ ok true)
unfolding is_gathering_registration_eligible
is_gathering_registration_eligible_lem window now member gathering gateway h =
    let (is_open, eligible) =
      only_where (is_registration_window_open window now)
        (is_member_in_scope member gathering gateway window.scope) h in
    let (approved, started, running) =
      open_gate (contains closed_scopes window.scope) (window.approval_status == "Approved")
        (truthy window.opens_on && text_ltb now (or_text window.opens_on ""))
        (truthy window.closes_on && text_ltb (or_text window.closes_on "") now)
        (unfold is_registration_window_open in is_open) in
    (eq_of_beq approved, started, running, eligible)
