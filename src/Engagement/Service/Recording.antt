-- ===== src/Engagement/Service/Recording.antt =====
-- What recording one row does to the log, the attendees and the nonces.
use flock_os.Engagement.Service.Credit.{credited_by, credited_by-append, IsSound}
use flock_os.Engagement.Gateway.{
  Gateway, Participation, nonce_key, credit, record_participation, attendees, participations,
}
use flock_os.Base.Dict.{lookup, or_default, lookup-insert}
use flock_os.Base.{
  ◌≡◌, refl, ap, String, string_eq, triple_eq, triple_beq_iff, ◌==◌, eq_iff_lem, Bool-cases, true,
  false, not, ◌&&◌, inl, inr, List, [], ◌∷◌, ◌++◌, map, contains, contains-append, IsDistinct,
  IsDistinct-snoc, add, All, All-mono, All-append, arith, if◌then◌else◌,
}

module _ (p : Participation) (g : Gateway) where
  participations-recorded :
      (session_id : String)
      → contains g.nonce_seen (nonce_key p) ≡ false
      → participations (record_participation p g).1 session_id ≡ (
          if p.session_id == session_id
          then participations g session_id ++ p ∷ []
          else participations g session_id)
  unfolding record_participation participations
  participations-recorded session_id fresh = ground (
    arith,
    lookup-insert p.session_id session_id (or_default [] (lookup p.session_id g.log) ++ p ∷ [])
        g.log,
    eq_iff_lem p.session_id session_id,
  )

  attendees-recorded :
      (session_id : String)
      → contains g.nonce_seen (nonce_key p) ≡ false
      → attendees (record_participation p g).1 session_id ≡ (
          if p.session_id == session_id && not p.status_flags.out_of_scope
          then add (attendees g session_id) p.attendee_key
          else attendees g session_id)
  unfolding record_participation attendees credit
  attendees-recorded session_id fresh = ground (
    arith,
    lookup-insert p.session_id session_id
        (add (or_default [] (lookup p.session_id g.credited)) p.attendee_key) g.credited,
    eq_iff_lem p.session_id session_id,
  )

  nonces-recorded :
      contains g.nonce_seen (nonce_key p) ≡ false
      → (record_participation p g).1.nonce_seen ≡ g.nonce_seen ++ nonce_key p ∷ []
  unfolding record_participation
  nonces-recorded fresh = ground arith

  recorded-credited :
      (session_id : String)
      → contains g.nonce_seen (nonce_key p) ≡ false
      → attendees g session_id ≡ credited_by [] (participations g session_id)
      → attendees (record_participation p g).1 session_id
        ≡ credited_by [] (participations (record_participation p g).1 session_id)
  recorded-credited session_id fresh h = ground (
    arith,
    participations-recorded session_id fresh,
    attendees-recorded session_id fresh,
    credited_by-append [] (participations g session_id) p,
  )

map-snoc {ℓ κ} :
    {A : Type ℓ} {B : Type κ} (f : A → B) (xs : List A) (a : A)
    → map f (xs ++ a ∷ []) ≡ map f xs ++ f a ∷ []
map-snoc f [] a = refl
map-snoc f (x ∷ xs) a = ap (λ l. f x ∷ l) (map-snoc f xs a)

-- A nonce that the gateway has not seen stands in no log.
not_in_log :
    (ps : List Participation) (seen : List (String × String × String))
    (k : String × String × String)
    → All (λ p. contains seen (nonce_key p) ≡ true) ps
    → contains seen k ≡ false
    → contains (map nonce_key ps) k ≡ false
not_in_log [] seen k all_seen fresh = refl
not_in_log (p ∷ ps) seen k all_seen fresh =
    ground
      (arith, all_seen.0, triple_beq_iff (nonce_key p) k, not_in_log ps seen k all_seen.1 fresh)

-- Recording a row, whether it is new or a replay, keeps the attendees of every session in step with
-- its log, and the nonces of the log distinct.
pub record_participation-IsSound :
    (p : Participation) (g : Gateway) → IsSound g → IsSound (record_participation p g).1
record_participation-IsSound p g sound = elim (Bool-cases (contains g.nonce_seen (nonce_key p))) [
  | inl seen ↦ unfold record_participation in rw seen sound
  | inr fresh ↦ record {
    credited = λ session_id. recorded-credited p g session_id fresh (sound.credited session_id);
    distinct =
        λ session_id. rw (participations-recorded p g session_id fresh) (distinct fresh session_id);
    remembered = λ session_id.
        rw (participations-recorded p g session_id fresh, nonces-recorded p g fresh)
          (remembered session_id);
  }
]
  where
    distinct :
        contains g.nonce_seen (nonce_key p) ≡ false
        → (session_id : String)
        → IsDistinct (
            map nonce_key (
              if p.session_id == session_id
              then participations g session_id ++ p ∷ []
              else participations g session_id))
    distinct fresh session_id = elim (Bool-cases (p.session_id == session_id)) [
      | inr other ↦ rw other (sound.distinct session_id)
      | inl mine ↦ rw mine (
          rw (map-snoc nonce_key (participations g session_id) p) (
            IsDistinct-snoc (map nonce_key (participations g session_id)) (nonce_key p)
              (sound.distinct session_id)
              (not_in_log (participations g session_id) g.nonce_seen (nonce_key p)
                (sound.remembered session_id) fresh)))
    ]

    remembered :
        (session_id : String)
        → All
            (λ q. contains (g.nonce_seen ++ nonce_key p ∷ []) (nonce_key q) ≡ true)
            (if p.session_id == session_id
              then participations g session_id ++ p ∷ []
              else participations g session_id)
    remembered session_id =
        let grown : All (λ q. contains (g.nonce_seen ++ nonce_key p ∷ []) (nonce_key q) ≡ true)
            (participations g session_id) =
          All-mono (participations g session_id)
            (λ q old. ground (arith, contains-append g.nonce_seen (nonce_key p ∷ []) (nonce_key q)))
            (sound.remembered session_id) in
        let own : contains (g.nonce_seen ++ nonce_key p ∷ []) (nonce_key p) ≡ true = ground (
          arith,
          contains-append g.nonce_seen (nonce_key p ∷ []) (nonce_key p),
          triple_beq_iff (nonce_key p) (nonce_key p),
        ) in
        elim (Bool-cases (p.session_id == session_id)) [
          | inr other ↦ rw other grown
          | inl mine ↦ rw mine (
              All-append (λ q. contains (g.nonce_seen ++ nonce_key p ∷ []) (nonce_key q) ≡ true)
                (participations g session_id) (p ∷ []) grown (own, tt))
        ]
