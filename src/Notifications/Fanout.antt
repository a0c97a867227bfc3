-- ===== src/Notifications/Fanout.antt =====
-- The audience of a push, and the rooms that get it.
use flock_os.Notifications.{
  NotificationScope, NotificationGateway, ScopedAudience, Push, Notice, FanoutResult, Outbox,
  organization_required, anchor_required, group_outside, other_branch, branch_outside, no_group,
  unbound_group, branch_notification_room, group_notification_room, validate_scope,
  validate_group_scope, raised_by, group_audience, branch_audience, resolve_scoped_audience,
  rooms_for, publish_all, deliver, dispatch, fanout,
}
use flock_os.Scheduling.Audience.{IsSubtree, subtree_of-IsSubtree, compute_branch_subtree-IsSubtree}
use flock_os.Permissions.{compute_branch_subtree}
use flock_os.Trees.{TreeError, subtree_of}
use flock_os.Base.{
  ◌≡◌, refl, sym, ap, ◌∙◌, subst, String, string_eq, ◌==◌, Bool, Bool-cases, Result-cases, true,
  false, not, ◌||◌, inl, inr, List, [], ◌∷◌, ◌++◌, map, some, Result, ok, err, guard, guard-eq-ok,
  >>=-eq-ok, ok_injective, filter, length, ltb, truthy, or_text, content, if◌then◌else◌, append-nil,
  append_assoc, arith,
}

-- The audience of a scope: the subtree of its group, which is bound to a branch of the organization and to
-- the scope's own branch if it names one, or else the subtree of its branch.
pub data IsAudience (scope : NotificationScope) (gateway : NotificationGateway)
    (audience : ScopedAudience) : Type 0 where
  of_group :
      (group : String)
      → scope.group ≡ some group
      → gateway.group_exists group ≡ true
      → gateway.branch_exists (or_text (gateway.group_branch group) "") scope.organization ≡ true
      → (not (truthy scope.branch)
          || or_text scope.branch "" == or_text (gateway.group_branch group) "")
        ≡ true
      → IsSubtree gateway.group_children_of group audience.nodes
      → audience.leaders ≡ gateway.leaders_in_groups audience.nodes
      → rooms_for audience ≡ map group_notification_room audience.nodes
      → IsAudience scope gateway audience
  of_branch :
      (branch : String)
      → truthy scope.group ≡ false
      → scope.branch ≡ some branch
      → gateway.branch_exists branch scope.organization ≡ true
      → IsSubtree gateway.branch_children_of branch audience.nodes
      → audience.leaders ≡ gateway.leaders_in_branches audience.nodes
      → rooms_for audience ≡ map branch_notification_room audience.nodes
      → IsAudience scope gateway audience

unraised :
    (r : Result (TreeError String) (List String)) {a : List String} → raised_by r ≡ ok a → r ≡ ok a
unraised (ok b) h = ap ok (ok_injective h)
unraised (err e) h = cc

module _ (scope : NotificationScope) (gateway : NotificationGateway) where
  group_audience-IsAudience :
      (group : String) (audience : ScopedAudience)
      → scope.group ≡ some group
      → validate_group_scope scope gateway group ≡ ok tt
      → group_audience gateway group ≡ ok audience
      → IsAudience scope gateway audience
  unfolding validate_group_scope group_audience rooms_for
  group_audience-IsAudience group audience named valid h =
      let owner = or_text (gateway.group_branch group) "" in
      let (u, exists, h1) =
        >>=-eq-ok (guard (gateway.group_exists group) (no_group group)) _ valid in
      let (v, bound, h2) =
        >>=-eq-ok (guard (truthy (gateway.group_branch group)) (unbound_group group)) _ h1 in
      let (w, inside, agrees) =
        >>=-eq-ok
          (guard (gateway.branch_exists owner scope.organization) (group_outside group owner)) _
          h2 in
      let (nodes, walked, made) =
        >>=-eq-ok (raised_by (subtree_of group gateway.group_children_of)) _ h in
      subst (λ (a : ScopedAudience). IsAudience scope gateway a) (ok_injective made)
        (of_group group named (guard-eq-ok _ (no_group group) exists)
          (guard-eq-ok _ (group_outside group owner) inside)
          (guard-eq-ok _ (other_branch group owner) agrees)
          (subtree_of-IsSubtree gateway.group_children_of group nodes (unraised _ walked)) refl
          refl)

  branch_audience-IsAudience :
      (branch : String) (audience : ScopedAudience)
      → truthy scope.group ≡ false
      → scope.branch ≡ some branch
      → (branch == "") ≡ false
      → gateway.branch_exists branch scope.organization ≡ true
      → branch_audience gateway branch ≡ ok audience
      → IsAudience scope gateway audience
  unfolding branch_audience rooms_for
  branch_audience-IsAudience branch audience alone named nonempty inside h =
      let (nodes, walked, made) =
        >>=-eq-ok (raised_by (compute_branch_subtree branch gateway.branch_children_of)) _ h in
      subst (λ (a : ScopedAudience). IsAudience scope gateway a) (ok_injective made)
        (of_branch branch alone named inside
          (compute_branch_subtree-IsSubtree gateway.branch_children_of branch nodes nonempty
            (unraised _ walked))
          refl refl)

  resolve_scoped_audience-IsAudience :
      (audience : ScopedAudience)
      → resolve_scoped_audience scope gateway ≡ ok audience
      → IsAudience scope gateway audience
  unfolding resolve_scoped_audience validate_scope
  resolve_scoped_audience-IsAudience audience h =
      let (u, valid, resolved) = >>=-eq-ok (validate_scope scope gateway) _ h in
      let (v, tenant, h1) =
        >>=-eq-ok (guard (not (scope.organization == "")) organization_required) _ valid in
      let (w, anchored, h2) =
        >>=-eq-ok (guard (truthy scope.branch || truthy scope.group) anchor_required) _ h1 in
      elim (Bool-cases (truthy scope.group)) [
        | inl grouped ↦
            let (group, named, nonempty, text) = content scope.group grouped in
            let ruled : validate_group_scope scope gateway (or_text scope.group "") ≡ ok tt =
              sym (rw grouped refl) ∙ h2 in
            let found : group_audience gateway (or_text scope.group "") ≡ ok audience =
              sym (rw grouped refl) ∙ resolved in
            group_audience-IsAudience group audience named
              (subst (λ g. validate_group_scope scope gateway g ≡ ok tt) text ruled)
              (subst (λ g. group_audience gateway g ≡ ok audience) text found)
        | inr alone ↦
            let with_branch : truthy scope.branch ≡ true = ground (
              arith,
              alone,
              guard-eq-ok (truthy scope.branch || truthy scope.group) anchor_required anchored,
            ) in
            let (branch, named, nonempty, text) = content scope.branch with_branch in
            let ruled : guard (gateway.branch_exists (or_text scope.branch "") scope.organization)
                  (branch_outside (or_text scope.branch ""))
                ≡ ok tt =
              sym (rw alone refl) ∙ h2 in
            let found : branch_audience gateway (or_text scope.branch "") ≡ ok audience =
              sym (rw alone refl) ∙ resolved in
            branch_audience-IsAudience branch audience alone named nonempty
              (subst (λ b. gateway.branch_exists b scope.organization ≡ true) text
                (guard-eq-ok _ _ ruled))
              (subst (λ b. branch_audience gateway b ≡ ok audience) text found)
      ]

publish_all-filter :
    (reaches : String → Bool) (message : Notice) (rooms : List String)
    (published : List (String × Notice))
    → publish_all reaches message rooms published
      ≡ published ++ map (λ (room : String). (room, message)) (filter reaches rooms)
unfolding publish_all
publish_all-filter reaches message [] published = sym (append-nil published)
publish_all-filter reaches message (room ∷ rooms) published = elim (Bool-cases (reaches room)) [
  | inl reached ↦
      rw reached (publish_all-filter reaches message rooms _ ∙ append_assoc published _ _)
  | inr lost ↦ rw lost (publish_all-filter reaches message rooms published)
]

-- A push that is sent: its audience is that of the scope; each room of a node that the publisher reaches
-- gets the notice once, if there is a leader at all, and one event tells it.
pub record IsSent (gateway : NotificationGateway) (reaches : String → Bool)
    (scope : NotificationScope) (push : Push) (before after : Outbox) (result : FanoutResult)
    : Type 0 where
  pub audience : IsAudience scope gateway result.audience
  pub rooms :
      result.rooms
      ≡ (if ltb 0 (length result.audience.leaders) then rooms_for result.audience else [])
  pub published :
      after.published
      ≡ before.published
        ++ map (λ (room : String). (room, result.event)) (filter reaches result.rooms)
  pub emitted : after.emitted ≡ before.emitted ++ result.event ∷ []
  pub same_push : result.event.push ≡ push
  pub same_nodes : result.event.nodes ≡ result.audience.nodes
  pub same_scope : result.event.scope ≡ scope

-- An accepted push has the subtree of its group, or else of its branch, as its audience, each node once;
-- where there is a leader, each of the rooms of these nodes that the publisher reaches gets the notice
-- once, and nothing else is published; one event tells it.
pub fanout-IsSent :
    (gateway : NotificationGateway) (reaches : String → Bool) (scope : NotificationScope)
    (push : Push) (outbox : Outbox) (result : FanoutResult)
    → (fanout gateway reaches scope push outbox).0 ≡ ok result
    → IsSent gateway reaches scope push outbox (fanout gateway reaches scope push outbox).1 result
unfolding fanout dispatch deliver
fanout-IsSent gateway reaches scope push outbox result h =
    elim (Result-cases (resolve_scoped_audience scope gateway)) [
      | inl (audience, found) ↦
          let sent : (fanout gateway reaches scope push outbox) ≡ (
            ok (deliver reaches scope push audience outbox).0,
            (deliver reaches scope push audience outbox).1,
          ) =
            ap (λ r. dispatch reaches scope push r outbox) found in
          subst
            (λ r.
              IsSent gateway reaches scope push outbox (fanout gateway reaches scope push outbox).1
                r)
            (ok_injective (sym (ap (λ p. p.0) sent) ∙ h))
            (subst
              (λ o.
                IsSent gateway reaches scope push outbox o
                  (deliver reaches scope push audience outbox).0)
              (sym (ap (λ p. p.1) sent))
              (record {
                audience = resolve_scoped_audience-IsAudience scope gateway audience found;
                rooms = refl;
                published = publish_all-filter reaches _ _ outbox.published;
                emitted = refl;
                same_push = refl;
                same_nodes = refl;
                same_scope = refl;
              }))
      | inr (e, refused) ↦
          let stopped : fanout gateway reaches scope push outbox ≡ (err e, outbox) =
            ap (λ r. dispatch reaches scope push r outbox) refused in
          absurd (cc (sym h ∙ ap (λ p. p.0) stopped))
    ]
