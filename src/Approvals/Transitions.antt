-- ===== src/Approvals/Transitions.antt =====
-- The states of an approval as a relation.
use flock_os.Approvals.{
  approval_statuses, approval_transitions, is_terminal_approval_status,
  is_valid_approval_transition,
}
use flock_os.Base.Dict.{lookup, or_default}
use flock_os.Base.{
  ◌≡◌, ◌⊎◌, refl, String, string_eq, ◌==◌, eq_of_beq, Bool, Bool-cases, true, false, not, ◌||◌, inl,
  inr, List, [], ◌∷◌, some, contains, if◌then◌else◌, arith, sym, subst, ap, ◌∙◌,
}

abbrev reopens : String → Bool
reopens status = "Rejected" == status || "Withdrawn" == status

abbrev targets : String → List String
targets status = or_default [] (lookup status approval_transitions)

-- Which of the terminal statuses it is, by the test that the code makes.
terminal-cases :
    (status : String)
    → is_terminal_approval_status status ≡ true
    → (x : String) × ((x == status) ≡ true)
      × ((targets x ≡ []) ⊎ ((targets x ≡ "Draft" ∷ []) × (reopens x ≡ true)))
unfolding is_terminal_approval_status
terminal-cases status terminal = elim (Bool-cases ("Approved" == status)) [
  | inl here ↦ ("Approved", here, inl refl)
  | inr other1 ↦ elim (Bool-cases ("Cancelled" == status)) [
    | inl here ↦ ("Cancelled", here, inl refl)
    | inr other2 ↦ elim (Bool-cases ("Rejected" == status)) [
      | inl here ↦ ("Rejected", here, inr (refl, refl))
      | inr other3 ↦ ("Withdrawn", ground arith, inr (refl, refl))
    ]
  ]
]

terminal_targets :
    (status to : String)
    → is_terminal_approval_status status ≡ true
    → contains (targets status) to ≡ true
    → (("Draft" == to) ≡ true) × (reopens status ≡ true)
terminal_targets status to terminal there =
    let (x, same, cases) = terminal-cases status terminal in
    subst (λ y. contains (targets y) to ≡ true → (("Draft" == to) ≡ true) × (reopens y ≡ true))
      (eq_of_beq {a = x} same) (by_case x cases) there
  where
    by_case :
        (x : String)
        → (targets x ≡ []) ⊎ ((targets x ≡ "Draft" ∷ []) × (reopens x ≡ true))
        → contains (targets x) to ≡ true
        → (("Draft" == to) ≡ true) × (reopens x ≡ true)
    by_case x (inl empty) there' =
        let p : ◌≡◌ {A = Bool} false true = sym (ap (λ l. contains l to) empty) ∙ there' in
        let q : ⊥ = ground (arith, p) in absurd q
    by_case x (inr (only, again)) there' =
        (only_draft (sym (ap (λ l. contains l to) only) ∙ there'), again)
      where
        only_draft : ("Draft" == to || false) ≡ true → ("Draft" == to) ≡ true
        only_draft h = ground (arith, h)

third :
    (a b c : Bool) → (if not a then false else if b then true else c) ≡ true → b ≡ false → c ≡ true
third a b c h k = ground (arith, h, k)

-- Of the statuses that count as terminal, `Approved` and `Cancelled` are final: only the same status
-- may be saved again. The others, `Rejected` and `Withdrawn`, go back to `Draft` and nowhere else.
pub is_valid_approval_transition-terminal :
    (status to : String)
    → is_terminal_approval_status status ≡ true
    → is_valid_approval_transition (some status) to ≡ true
    → (status ≡ to) ⊎ ((to ≡ "Draft") × ((status ≡ "Rejected") ⊎ (status ≡ "Withdrawn")))
unfolding is_valid_approval_transition
is_valid_approval_transition-terminal status to terminal valid = elim (Bool-cases (status == to)) [
  | inl same ↦ inl (eq_of_beq same)
  | inr moves ↦
      let (draft, open_again) = terminal_targets status to terminal (
        third (contains approval_statuses to) (status == to) (contains (targets status) to) valid
          moves) in
      inr (
        sym (eq_of_beq draft),
        elim (Bool-cases ("Rejected" == status)) [
          | inl rejected ↦ inl (sym (eq_of_beq rejected))
          | inr other4 ↦ inr (sym (eq_of_beq {a = "Withdrawn"} (ground arith)))
        ],
      )
]
