-- ===== src/Registrations/Waitlist.antt =====
-- The candidate that is promoted from a waitlist.
use flock_os.Registrations.{
  WaitlistCandidate, is_before, least, select_waitlist_promotion_candidate,
}
use flock_os.Base.Texts.{
  text_leb, text_ltb, text_leb_trans, text_ltb-not, text_leb_antisym, text_ltb_self, text_ltb_asym,
}
use flock_os.Base.{
  ◌≡◌, ◌⊎◌, refl, sym, ap, ◌∙◌, String, string_eq, ◌==◌, eq_of_beq, subst, Bool, Bool-cases, true,
  false, not, ◌||◌, ◌&&◌, inl, inr, List, [], ◌∷◌, some, All, if◌then◌else◌, arith,
}

-- Whether a candidate stands in a list.
abbrev pub IsIn : WaitlistCandidate → List WaitlistCandidate → Type 0
IsIn c [] = ⊥
IsIn c (d ∷ cs) = (c ≡ d) ⊎ IsIn c cs

-- Of two pairs, the first comes before the second; the laws as far as the order needs them.
lexicographic :
    (lt_t eq_t lt_n : Bool)
    → (lt_t || (eq_t && lt_n)) ≡ false
    → (lt_t ≡ false) × ((eq_t && lt_n) ≡ false)
lexicographic lt_t eq_t lt_n h = (ground (arith, h), ground (arith, h))

-- What is not before something that is not before a third is not before the third.
is_before-step :
    (a b c : WaitlistCandidate)
    → is_before c b ≡ false
    → is_before b a ≡ false
    → is_before c a ≡ false
is_before-step a b c h k =
    let (ct, cn) =
      lexicographic (text_ltb c.registered_at b.registered_at) (c.registered_at == b.registered_at)
        (text_ltb c.name b.name) h in
    let (bt, bn) =
      lexicographic (text_ltb b.registered_at a.registered_at) (b.registered_at == a.registered_at)
        (text_ltb b.name a.name) k in
    let b_c = not_later c.registered_at b.registered_at ct in
    let a_b = not_later b.registered_at a.registered_at bt in
    let a_c = text_leb_trans a.registered_at b.registered_at c.registered_at a_b b_c in
    combine (text_ltb c.registered_at a.registered_at) (c.registered_at == a.registered_at)
      (text_ltb c.name a.name) (text_ltb-not c.registered_at a.registered_at ∙ ap not a_c)
      (λ same.
        let equal = eq_of_beq {a = c.registered_at} same in
        let cb : (c.registered_at == b.registered_at) ≡ true =
          text_leb_antisym c.registered_at b.registered_at
            (subst (λ x. text_leb x b.registered_at ≡ true) (sym equal) a_b) b_c in
        let ba : (b.registered_at == a.registered_at) ≡ true =
          text_leb_antisym b.registered_at a.registered_at
            (subst (λ x. text_leb b.registered_at x ≡ true) equal b_c) a_b in
        text_ltb-not c.name a.name
        ∙ ap not (
            text_leb_trans a.name b.name c.name
              (not_later b.name a.name
                (second (b.registered_at == a.registered_at) (text_ltb b.name a.name) ba bn))
              (not_later c.name b.name
                (second (c.registered_at == b.registered_at) (text_ltb c.name b.name) cb cn))))
  where
    not_later : (x y : String) → text_ltb x y ≡ false → text_leb y x ≡ true
    not_later x y f = flip (text_leb y x) (sym (text_ltb-not x y) ∙ f)
      where
        flip : (v : Bool) → not v ≡ false → v ≡ true
        flip v g = ground (arith, g)

    second : (e l : Bool) → e ≡ true → (e && l) ≡ false → l ≡ false
    second e l p q = ground (arith, p, q)

    combine :
        (lt_t eq_t lt_n : Bool)
        → lt_t ≡ false
        → (eq_t ≡ true → lt_n ≡ false)
        → (lt_t || (eq_t && lt_n)) ≡ false
    combine lt_t eq_t lt_n p q = ground (arith, p, q)

is_before-irreflexive : (c : WaitlistCandidate) → is_before c c ≡ false
is_before-irreflexive c =
    combine (text_ltb c.registered_at c.registered_at) (c.registered_at == c.registered_at)
      (text_ltb c.name c.name) (text_ltb_self c.registered_at) (text_ltb_self c.name)
  where
    combine :
        (lt_t eq_t lt_n : Bool) → lt_t ≡ false → lt_n ≡ false → (lt_t || (eq_t && lt_n)) ≡ false
    combine lt_t eq_t lt_n p q = ground (arith, p, q)

is_before-asym : (a b : WaitlistCandidate) → is_before a b ≡ true → is_before b a ≡ false
is_before-asym a b h = elim (Bool-cases (text_ltb a.registered_at b.registered_at)) [
  | inl earlier ↦
      let (later, differ) = text_ltb_asym a.registered_at b.registered_at earlier in
      none_of (text_ltb b.registered_at a.registered_at) (b.registered_at == a.registered_at)
        (text_ltb b.name a.name) later (inl differ)
  | inr together ↦
      let (same, first) =
        by_name (text_ltb a.registered_at b.registered_at) (a.registered_at == b.registered_at)
          (text_ltb a.name b.name) h together in
      none_of (text_ltb b.registered_at a.registered_at) (b.registered_at == a.registered_at)
        (text_ltb b.name a.name)
        (subst (λ x. text_ltb x a.registered_at ≡ false) (eq_of_beq {a = a.registered_at} same)
          (text_ltb_self a.registered_at))
        (inr (text_ltb_asym a.name b.name first).0)
]
  where
    none_of :
        (lt_t eq_t lt_n : Bool)
        → lt_t ≡ false
        → (eq_t ≡ false) ⊎ (lt_n ≡ false)
        → (lt_t || (eq_t && lt_n)) ≡ false
    none_of lt_t eq_t lt_n p (inl q) = ground (arith, p, q)
    none_of lt_t eq_t lt_n p (inr q) = ground (arith, p, q)

    by_name :
        (lt_t eq_t lt_n : Bool)
        → (lt_t || (eq_t && lt_n)) ≡ true
        → lt_t ≡ false
        → (eq_t ≡ true) × (lt_n ≡ true)
    by_name lt_t eq_t lt_n p q = (ground (arith, p, q), ground (arith, p, q))

least-lower :
    (best : WaitlistCandidate) (cs : List WaitlistCandidate)
    → (is_before best (least best cs) ≡ false) × All (λ c. is_before c (least best cs) ≡ false) cs
unfolding least
least-lower best [] = (is_before-irreflexive best, tt)
least-lower best (c ∷ cs) = step (is_before c best) refl (least-lower c cs) (least-lower best cs)
  where
    step :
        (b : Bool)
        → is_before c best ≡ b
        → (is_before c (least c cs) ≡ false) × All (λ x. is_before x (least c cs) ≡ false) cs
        → (is_before best (least best cs) ≡ false)
          × All (λ x. is_before x (least best cs) ≡ false) cs
        → (is_before best (least (if b then c else best) cs) ≡ false)
          × ((is_before c (least (if b then c else best) cs) ≡ false)
              × All (λ x. is_before x (least (if b then c else best) cs) ≡ false) cs)
    step true older (lower, rest) _ =
        (is_before-step (least c cs) c best (is_before-asym c best older) lower, (lower, rest))
    step false younger _ (lower, rest) =
        (lower, (is_before-step (least best cs) best c younger lower, rest))

least-IsIn :
    (best : WaitlistCandidate) (cs : List WaitlistCandidate) → IsIn (least best cs) (best ∷ cs)
unfolding least
least-IsIn best [] = inl refl
least-IsIn best (c ∷ cs) = step (is_before c best) (least-IsIn c cs) (least-IsIn best cs)
  where
    step :
        (b : Bool)
        → IsIn (least c cs) (c ∷ cs)
        → IsIn (least best cs) (best ∷ cs)
        → IsIn (least (if b then c else best) cs) (best ∷ c ∷ cs)
    step true there _ = inr there
    step false _ (inl same) = inl same
    step false _ (inr below) = inr (inr below)

-- From a waitlist that is not empty a candidate of the list is chosen, and none of the list is
-- before it, by the time of registration and then by name.
pub select_waitlist_promotion_candidate_lem :
    (first : WaitlistCandidate) (rest : List WaitlistCandidate)
    → (chosen : WaitlistCandidate) × (select_waitlist_promotion_candidate (first ∷ rest)
        ≡ some chosen)
      × IsIn chosen (first ∷ rest)
      × All (λ c. is_before c chosen ≡ false) (first ∷ rest)
unfolding select_waitlist_promotion_candidate
select_waitlist_promotion_candidate_lem first rest =
    (least first rest, refl, least-IsIn first rest, least-lower first rest)
