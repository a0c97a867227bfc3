-- ===== src/Scheduling/Schedule.antt =====
-- What `schedule_announcement` stores and emits.
use flock_os.Scheduling.{
  Announcement, Wiring, Desk, no_document, validate_announcement_scope, author_branch_scope,
  validate_status_transition, schedule_document, schedule_announcement,
}
use flock_os.Scheduling.Validity.{then_ok, IsInScope, validate_announcement_scope-IsInScope}
use flock_os.Base.Dict.{lookup, lookup-insert}
use flock_os.Base.{
  ◌≡◌, refl, sym, ap, ◌∙◌, subst, String, string_eq, ◌==◌, beq_self, true, false, inl, inr, [], ◌∷◌,
  ◌++◌, Option, Option-cases, some, ok, err, ok_injective, truthy, or_text, arith,
}

-- The step from one desk to the next when an announcement is scheduled: the stored one becomes
-- `Scheduled`, keeps the rules of its scope and has a time; the others stay; one event is added.
pub record IsScheduled (wiring : Wiring) (name : String) (before after : Desk) : Type 0 where
  pub stored : Announcement
  pub was_stored : lookup name before.documents ≡ some stored
  pub is_stored : lookup name after.documents ≡ some (record stored { status = some "Scheduled" })
  pub others :
      (other : String)
      → (name == other) ≡ false
      → lookup other after.documents ≡ lookup other before.documents
  pub organization : String
  pub branch : String
  pub in_scope :
      IsInScope (record stored { status = some "Scheduled" }) wiring.gateway organization branch
  pub timed : truthy stored.scheduled_at ≡ true
  pub allowed : author_branch_scope wiring.permissions wiring.user branch ≡ ok tt
  pub emitted :
      after.events
      ≡ before.events
        ++ (record {
          announcement = name;
          branch = stored.branch;
          group = stored.group;
          organization = stored.organization;
          scheduled_at = stored.scheduled_at;
        })
          ∷ []

document_case :
    (wiring : Wiring) (name : String) (before after : Desk) (stored : Announcement)
    → lookup name before.documents ≡ some stored
    → schedule_document wiring name before (some stored) ≡ ok after
    → IsScheduled wiring name before after
unfolding schedule_document
document_case wiring name before after stored there h =
    let doc : Announcement = record stored { status = some "Scheduled" } in
    let (valid, h1) = then_ok (validate_announcement_scope doc wiring.gateway) _ h in
    let (allowed, h2) =
      then_ok (author_branch_scope wiring.permissions wiring.user (or_text doc.branch "")) _ h1 in
    let (legal, h3) = then_ok (validate_status_transition "Draft" "Scheduled") _ h2 in
    let (organization, branch, scope) =
      validate_announcement_scope-IsInScope doc wiring.gateway valid in
    subst (λ (d : Desk). IsScheduled wiring name before d) (ok_injective h3)
      (record {
        stored = stored;
        was_stored = there;
        is_stored =
            lookup-insert name name doc before.documents ∙ rw (beq_self {A = String} name) refl;
        others = λ other apart. lookup-insert name other doc before.documents ∙ rw apart refl;
        organization = organization;
        branch = branch;
        in_scope = scope;
        timed = scope.is_timed refl;
        allowed =
            ap (λ x. author_branch_scope wiring.permissions wiring.user x)
              (sym (named_text stored.branch branch scope.of_branch scope.branch_is_named))
            ∙ allowed;
        emitted = refl;
      })
  where
    named_text :
        (o : Option String) (b : String) → o ≡ some b → (b == "") ≡ false → or_text o "" ≡ b
    named_text o b given named = rw (given, named) refl

-- Where `schedule_announcement` returns, the stored announcement, whatever its status was, is
-- `Scheduled`, keeps the rules of its scope and has a time, the user passes the guard of its branch,
-- the other documents are as before, and exactly one event with its data is added.
pub schedule_announcement-IsScheduled :
    (wiring : Wiring) (name : String) (before after : Desk)
    → schedule_announcement wiring name before ≡ ok after
    → IsScheduled wiring name before after
unfolding schedule_announcement
schedule_announcement-IsScheduled wiring name before after h =
    elim (Option-cases (lookup name before.documents)) [
      | inl missing ↦
          let e : err (no_document name) ≡ ok after =
            sym (ap (λ o. schedule_document wiring name before o) missing) ∙ h in
          absurd (ground (arith, e))
      | inr (stored, there) ↦
          document_case wiring name before after stored there
            (sym (ap (λ o. schedule_document wiring name before o) there) ∙ h)
    ]
