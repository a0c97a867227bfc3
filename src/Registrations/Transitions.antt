-- ===== src/Registrations/Transitions.antt =====
-- The states of a registration.
use flock_os.Registrations.{
  registration_statuses, registration_transitions, is_terminal_registration_status,
  is_valid_registration_transition,
}
use flock_os.Base.Dict.{lookup, or_default}
use flock_os.Base.{
  ◌≡◌, refl, sym, ap, ◌∙◌, subst, String, string_eq, ◌==◌, eq_of_beq, Bool, Bool-cases, true, false,
  not, inl, inr, List, [], contains, if◌then◌else◌, arith,
}

abbrev targets : String → List String
targets status = or_default [] (lookup status registration_transitions)

third :
    (a b c : Bool) → (if not a then false else if b then true else c) ≡ true → b ≡ false → c ≡ true
third a b c h k = ground (arith, h, k)

terminal-cases :
    (status : String)
    → is_terminal_registration_status status ≡ true
    → (x : String) × ((x == status) ≡ true) × (targets x ≡ [])
unfolding is_terminal_registration_status
terminal-cases status terminal = elim (Bool-cases ("Cancelled" == status)) [
  | inl here ↦ ("Cancelled", here, refl)
  | inr other1 ↦ elim (Bool-cases ("Checked-in" == status)) [
    | inl here ↦ ("Checked-in", here, refl)
    | inr other2 ↦ ("No-show", ground arith, refl)
  ]
]

-- From a terminal status only the same status is valid.
pub is_valid_registration_transition-terminal :
    (status to : String)
    → is_terminal_registration_status status ≡ true
    → is_valid_registration_transition status to ≡ true
    → status ≡ to
unfolding is_valid_registration_transition
is_valid_registration_transition-terminal status to terminal valid =
    elim (Bool-cases (status == to)) [
      | inl same ↦ eq_of_beq same
      | inr moves ↦
          let (x, same, empty) = terminal-cases status terminal in
          let there : contains (targets x) to ≡ true =
            subst (λ y. contains (targets y) to ≡ true) (sym (eq_of_beq {a = x} same))
              (third (contains registration_statuses to) (status == to)
                (contains (targets status) to) valid moves) in
          let p : ◌≡◌ {A = Bool} false true = sym (ap (λ l. contains l to) empty) ∙ there in
          let q : ⊥ = ground (arith, p) in absurd q
    ]

no_show_target : (status : String) → contains (targets status) "No-show" ≡ false
no_show_target status = elim (Bool-cases ("Registered" == status)) [
  | inl here ↦ ground arith
  | inr other1 ↦ elim (Bool-cases ("Waitlisted" == status)) [
    | inl here ↦ ground arith
    | inr other2 ↦ ground arith
  ]
]

-- No other status leads to `No-show`: the transition table cannot record that a registrant stayed
-- away.
pub is_valid_registration_transition-no_show :
    (status : String)
    → is_valid_registration_transition status "No-show" ≡ true
    → status ≡ "No-show"
unfolding is_valid_registration_transition
is_valid_registration_transition-no_show status valid = elim (Bool-cases (status == "No-show")) [
  | inl same ↦ eq_of_beq same
  | inr moves ↦
      let there =
        third true (status == "No-show") (contains (targets status) "No-show") valid moves in
      let p : ◌≡◌ {A = Bool} false true = sym (no_show_target status) ∙ there in
      let q : ⊥ = ground (arith, p) in absurd q
]
