-- ===== src/Scheduling/Validity.antt =====
-- An announcement that passes the validator, and the rules of its scope.
use flock_os.Scheduling.{
  SchedulingError, organization_required, branch_required, branch_not_in_organization,
  unknown_status, scheduled_at_required, no_group, group_unbound, group_elsewhere,
  SchedulingGateway, Announcement, announcement_statuses, validate_group_anchor,
  validate_announcement_scope,
}
use flock_os.Base.{
  content, ◌≡◌, refl, sym, ap, ◌∙◌, String, string_eq, ◌==◌, eq_of_beq, Bool, true, false, not,
  ◌&&◌, Option, some, Result, ok, err, guard, ◌>>◌, contains, truthy, or_text, if◌then◌else◌, arith,
}

-- The rules: an organization, a branch of it, a group only of that branch, a known status, and a time
-- for a scheduled one.
pub record IsInScope (announcement : Announcement) (gateway : SchedulingGateway)
    (organization branch : String) : Type 0 where
  pub of_organization : announcement.organization ≡ some organization
  pub of_branch : announcement.branch ≡ some branch
  pub branch_is_named : (branch == "") ≡ false
  pub branch_exists : gateway.branch_exists branch organization ≡ true
  pub group_is_bound :
      (group : String)
      → announcement.group ≡ some group
      → (group == "") ≡ false
      → (gateway.group_exists group ≡ true) × (gateway.group_branch group ≡ some branch)
  pub status_is_known : contains announcement_statuses (or_text announcement.status "Draft") ≡ true
  pub is_timed : announcement.status ≡ some "Scheduled" → truthy announcement.scheduled_at ≡ true

pub guarded {ℓ} :
    {A : Type ℓ} (b : Bool) (e : SchedulingError) (next : Result SchedulingError A) {a : A}
    → (guard b e >> next) ≡ ok a
    → (b ≡ true) × (next ≡ ok a)
guarded true e next h = (refl, h)
guarded false e next h = cc

pub then_ok {ℓ} :
    {A : Type ℓ} (first : Result SchedulingError (Unit {0})) (next : Result SchedulingError A)
    {a : A}
    → (first >> next) ≡ ok a
    → (first ≡ ok tt) × (next ≡ ok a)
then_ok (ok tt) next h = (refl, h)
then_ok (err e) next h = cc

guard_ok : (b : Bool) (e : SchedulingError) → guard b e ≡ ok tt → b ≡ true
guard_ok true e h = refl
guard_ok false e h = cc

-- The rule of the group anchor, read at the group that is given.
at_group :
    (rule : String → Result SchedulingError (Unit {0})) (o : Option String) (group : String)
    → o ≡ some group
    → (group == "") ≡ false
    → (if truthy o then rule (or_text o "") else ok tt) ≡ ok tt
    → rule group ≡ ok tt
at_group rule o group given named h = sym same ∙ h
  where
    same :
        ◌≡◌ {A = Result SchedulingError (Unit {0})}
          (if truthy o then rule (or_text o "") else ok tt)
          (rule group)
    same = rw (given, named) refl

in_time :
    (o : Option String) (t : Bool)
    → o ≡ some "Scheduled"
    → not (or_text o "Draft" == "Scheduled" && not t) ≡ true
    → t ≡ true
in_time o true given h = refl
in_time o false given h = let e : false ≡ true = sym late ∙ h in absurd (ground (arith, e))
  where
    late : not (or_text o "Draft" == "Scheduled" && true) ≡ false
    late = rw given refl

group_anchor :
    (gateway : SchedulingGateway) (group branch : String)
    → validate_group_anchor gateway group branch ≡ ok tt
    → (gateway.group_exists group ≡ true) × (gateway.group_branch group ≡ some branch)
unfolding validate_group_anchor
group_anchor gateway group branch h =
    let bound = gateway.group_branch group in
    let (exists, rest) =
      guarded (gateway.group_exists group) (no_group group)
        (guard (truthy bound) (group_unbound group)
          >> guard (or_text bound "" == branch) (group_elsewhere group (or_text bound "") branch))
        h in
    let (has_branch, last) =
      guarded (truthy bound) (group_unbound group)
        (guard (or_text bound "" == branch) (group_elsewhere group (or_text bound "") branch))
        rest in
    let same =
      guard_ok (or_text bound "" == branch) (group_elsewhere group (or_text bound "") branch)
        last in
    let (b, is_b, named, text) = content bound has_branch in
    (exists, is_b ∙ ap (λ (x : String). some x) (sym text ∙ eq_of_beq {a = or_text bound ""} same))

-- An announcement passes the validator only where its scope keeps the rules: an organization, a named
-- branch of it, a group only of that branch, a known status, and a time for a scheduled one.
pub validate_announcement_scope-IsInScope :
    (announcement : Announcement) (gateway : SchedulingGateway)
    → validate_announcement_scope announcement gateway ≡ ok tt
    → (organization : String) × (branch : String) × IsInScope announcement gateway organization
        branch
unfolding validate_announcement_scope
validate_announcement_scope-IsInScope announcement gateway h =
    let organization = or_text announcement.organization "" in
    let branch = or_text announcement.branch "" in
    let status = or_text announcement.status "Draft" in
    let timed = not (status == "Scheduled" && not (truthy announcement.scheduled_at)) in
    let (has_organization, h1) =
      guarded (truthy announcement.organization) organization_required _ h in
    let (has_branch, h2) = guarded (truthy announcement.branch) branch_required _ h1 in
    let (exists, h3) =
      guarded (gateway.branch_exists branch organization)
        (branch_not_in_organization branch organization) _ h2 in
    let (anchored, h4) =
      then_ok
        (if truthy announcement.group
          then validate_group_anchor gateway (or_text announcement.group "") branch
          else ok tt)
        _ h3 in
    let (known, h5) =
      guarded (contains announcement_statuses status) (unknown_status status) _ h4 in
    let stamped = guard_ok timed scheduled_at_required h5 in
    let (o, is_o, o_named, o_text) = content announcement.organization has_organization in
    let (b, is_b, b_named, b_text) = content announcement.branch has_branch in
    (
      organization,
      branch,
      record {
        of_organization = is_o ∙ ap (λ (x : String). some x) (sym o_text);
        of_branch = is_b ∙ ap (λ (x : String). some x) (sym b_text);
        branch_is_named = ap (λ x. x == "") b_text ∙ b_named;
        branch_exists = exists;
        group_is_bound = λ group given named. group_anchor gateway group branch (
            at_group (λ g. validate_group_anchor gateway g branch) announcement.group group given
              named anchored);
        status_is_known = known;
        is_timed = λ scheduled.
            in_time announcement.status (truthy announcement.scheduled_at) scheduled stamped;
      },
    )
