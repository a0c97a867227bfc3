-- ===== src/Engagement/Session/Transitions.antt =====
-- The lifecycle of a session as a relation.
use flock_os.Engagement.Session.{allowed_from, live_states, validate_state_transition}
use flock_os.Base.{
  ◌≡◌, ◌↔◌, refl, subst, String, string_eq, ◌==◌, eq_of_beq, Bool, Bool-cases, true, false, ◌||◌,
  ◌&&◌, inl, inr, some, ok, contains, arith,
}

-- The edges of the lifecycle.
pub data Edge : String → String → Type 0 where
  plan : Edge "draft" "scheduled"
  unplan : Edge "scheduled" "draft"
  start : Edge "draft" "open"
  start_planned : Edge "scheduled" "open"
  close : Edge "open" "closing"
  finish : Edge "closing" "closed"
  archive : Edge "closed" "archived"

Edge-legal : {from to : String} → Edge from to → validate_state_transition (some from) to ≡ ok tt
unfolding validate_state_transition allowed_from
Edge-legal plan = refl
Edge-legal unplan = refl
Edge-legal start = refl
Edge-legal start_planned = refl
Edge-legal close = refl
Edge-legal finish = refl
Edge-legal archive = refl

module _ (from to : String) where
  abbrev both : String → String → Bool
  both f t = f == from && t == to

  Edge-at : (f t : String) → both f t ≡ true → Edge f t → Edge from to
  Edge-at f t h e =
      subst (λ x. Edge x to) (eq_of_beq {b = from} (ground arith))
        (subst (λ x. Edge f x) (eq_of_beq {b = to} (ground arith)) e)

  legal-Edge : contains (allowed_from (some from)) to ≡ true → Edge from to
  unfolding allowed_from
  legal-Edge h = elim (Bool-cases (both "draft" "scheduled")) [
    | inl here ↦ Edge-at "draft" "scheduled" here plan
    | inr not_plan ↦ elim (Bool-cases (both "scheduled" "draft")) [
      | inl here ↦ Edge-at "scheduled" "draft" here unplan
      | inr not_unplan ↦ elim (Bool-cases (both "draft" "open")) [
        | inl here ↦ Edge-at "draft" "open" here start
        | inr not_start ↦ elim (Bool-cases (both "scheduled" "open")) [
          | inl here ↦ Edge-at "scheduled" "open" here start_planned
          | inr not_start_planned ↦ elim (Bool-cases (both "open" "closing")) [
            | inl here ↦ Edge-at "open" "closing" here close
            | inr not_close ↦ elim (Bool-cases (both "closing" "closed")) [
              | inl here ↦ Edge-at "closing" "closed" here finish
              | inr not_finish ↦ elim (Bool-cases (both "closed" "archived")) [
                | inl here ↦ Edge-at "closed" "archived" here archive
                | inr not_archive ↦ let p : ⊥ = ground arith in absurd p
              ]
            ]
          ]
        ]
      ]
    ]
  ]

-- A transition is legal exactly when it is an edge of the lifecycle.
pub validate_state_transition_iff :
    (from to : String) → (validate_state_transition (some from) to ≡ ok tt) ↔ Edge from to
validate_state_transition_iff from to = (
  λ legal. legal-Edge from to (unfold validate_state_transition in ground arith),
  λ edge. Edge-legal edge,
)

-- The statuses that a session may pass through from another one.
pub data Later : String → String → Type 0 where
  same : (a : String) → Later a a
  next : (a b c : String) → Later a b → Edge b c → Later a c

-- A status past the live ones.
abbrev is_over : String → Bool
is_over status = "closed" == status || "archived" == status

Edge-is_over : {from to : String} → Edge from to → is_over from ≡ true → is_over to ≡ true
Edge-is_over plan h = ground arith
Edge-is_over unplan h = ground arith
Edge-is_over start h = ground arith
Edge-is_over start_planned h = ground arith
Edge-is_over close h = ground arith
Edge-is_over finish h = refl
Edge-is_over archive h = refl

Later-is_over : {from to : String} → Later from to → is_over from ≡ true → is_over to ≡ true
Later-is_over (same a) h = h
Later-is_over (next a b c l e) h = Edge-is_over e (Later-is_over l h)

-- No sequence of legal transitions leads from a closed session to a live one: what counts for a
-- session is settled when it is closed.
pub closed_never_live : (to : String) → Later "closed" to → contains live_states to ≡ false
closed_never_live to l =
    let over = Later-is_over l refl in
    elim (Bool-cases ("closed" == to)) [
      | inl closed ↦ subst (λ x. contains live_states x ≡ false) (eq_of_beq closed) refl
      | inr other ↦
          subst (λ x. contains live_states x ≡ false)
            (eq_of_beq {a = "archived"} {b = to} (ground arith)) refl
    ]
