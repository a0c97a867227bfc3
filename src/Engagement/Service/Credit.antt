-- ===== src/Engagement/Service/Credit.antt =====
-- What the participation log and the credited attendees have to do with each other.
use flock_os.Engagement.Gateway.{
  Gateway, Participation, new_gateway, nonce_key, attendees, participations,
}
use flock_os.Engagement.Service.{first_in_window}
use flock_os.Base.Dict.{lookup}
use flock_os.Base.{
  ◌≡◌, refl, ap, ◌∙◌, String, string_eq, triple_eq, Eq, Bool-cases, true, ◌||◌, inl, inr, List, [],
  ◌∷◌, ◌++◌, map, is_some, contains, IsDistinct, IsDistinct-snoc, add, All, arith, if◌then◌else◌,
}

-- The keys that the rows of a log credit, after those that are credited already.
abbrev pub credited_by : List String → List Participation → List String
credited_by keys [] = keys
credited_by keys (p ∷ ps) =
    credited_by (if p.status_flags.out_of_scope then keys else add keys p.attendee_key) ps

keys_of : List (String × Participation) → List String
keys_of by_attendee = map (λ entry. entry.0) by_attendee

contains-keys_of :
    (m : List (String × Participation)) (k : String) → contains (keys_of m) k ≡ is_some (lookup k m)
unfolding keys_of
contains-keys_of [] k = refl
contains-keys_of ((j, p) ∷ m) k = ground (arith, contains-keys_of m k)

keys_of-append :
    (m : List (String × Participation)) (k : String) (p : Participation)
    → keys_of (m ++ (k, p) ∷ []) ≡ keys_of m ++ k ∷ []
unfolding keys_of
keys_of-append [] k p = refl
keys_of-append ((j, q) ∷ m) k p = ap (λ l. j ∷ l) (keys_of-append m k p)

keys_of-first_in_window :
    (m : List (String × Participation)) (ps : List Participation)
    → keys_of (first_in_window m ps) ≡ credited_by (keys_of m) ps
unfolding first_in_window
keys_of-first_in_window m [] = refl
keys_of-first_in_window m (p ∷ ps) =
    keys_of-first_in_window
      (if p.status_flags.out_of_scope || is_some (lookup p.attendee_key m)
        then m
        else m ++ (p.attendee_key, p) ∷ [])
      ps
    ∙ ap (λ l. credited_by l ps)
        (ground (arith, contains-keys_of m p.attendee_key, keys_of-append m p.attendee_key p))

-- The attendees of the closing projection, by key.
pub map-first_in_window :
    (ps : List Participation) → map (λ entry. entry.0) (first_in_window [] ps) ≡ credited_by [] ps
map-first_in_window ps = unfold keys_of in keys_of-first_in_window [] ps

pub credited_by-append :
    (keys : List String) (ps : List Participation) (p : Participation)
    → credited_by keys (ps ++ p ∷ []) ≡ (
        if p.status_flags.out_of_scope
        then credited_by keys ps
        else add (credited_by keys ps) p.attendee_key)
credited_by-append keys [] p = refl
credited_by-append keys (q ∷ ps) p =
    credited_by-append (if q.status_flags.out_of_scope then keys else add keys q.attendee_key) ps p

module _ {ℓ} {A : Type ℓ} ⦃e : Eq A⦄ where
  IsDistinct-add : (xs : List A) (a : A) → IsDistinct xs → IsDistinct (add xs a)
  IsDistinct-add xs a d = elim (Bool-cases (contains xs a)) [
    | inl old ↦ rw old d
    | inr new ↦ rw new (IsDistinct-snoc xs a d new)
  ]

pub credited_by-IsDistinct :
    (keys : List String) (ps : List Participation)
    → IsDistinct keys
    → IsDistinct (credited_by keys ps)
credited_by-IsDistinct keys [] d = d
credited_by-IsDistinct keys (p ∷ ps) d = elim (Bool-cases p.status_flags.out_of_scope) [
  | inl out ↦ rw out (credited_by-IsDistinct keys ps d)
  | inr in_window ↦
      rw in_window
        (credited_by-IsDistinct (add keys p.attendee_key) ps (IsDistinct-add keys p.attendee_key d))
]

-- The attendees of a session are those that its log credits, in the order of their first row in
-- the window; the nonces of a log are distinct, and each is remembered.
pub record IsSound (g : Gateway) : Type 0 where
  pub credited :
      (session_id : String) → attendees g session_id ≡ credited_by [] (participations g session_id)
  pub distinct : (session_id : String) → IsDistinct (map nonce_key (participations g session_id))
  pub remembered :
      (session_id : String)
      → All (λ p. contains g.nonce_seen (nonce_key p) ≡ true) (participations g session_id)

pub new_gateway-IsSound : (secret : String) → IsSound (new_gateway secret)
new_gateway-IsSound secret = record {
  credited = λ session_id. unfold attendees participations in refl;
  distinct = λ session_id. unfold participations in tt;
  remembered = λ session_id. unfold participations in tt;
}

-- The invariant is about three fields.
pub IsSound-same :
    (g g' : Gateway)
    → g'.log ≡ g.log
    → g'.credited ≡ g.credited
    → g'.nonce_seen ≡ g.nonce_seen
    → IsSound g
    → IsSound g'
unfolding attendees participations
IsSound-same g g' same_log same_credited same_nonces sound = record {
  credited = λ session_id. rw (same_log, same_credited) (sound.credited session_id);
  distinct = λ session_id. rw same_log (sound.distinct session_id);
  remembered = λ session_id. rw (same_log, same_nonces) (sound.remembered session_id);
}
