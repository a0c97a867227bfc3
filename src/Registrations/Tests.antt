-- ===== src/Registrations/Tests.antt =====
-- A small gathering, and the theorems at it.
use flock_os.Registrations.{
  ScopeGateway, WaitlistCandidate, is_invitation_expired, is_before,
  select_waitlist_promotion_candidate, chunk_members,
}
use flock_os.Registrations.Waitlist.{IsIn, select_waitlist_promotion_candidate_lem}
use flock_os.Registrations.Chunks.{IsBatch, concat, chunk_members_lem}
use flock_os.Base.Int.{pos}
use flock_os.Base.{
  List, IsDistinct, ◌&&◌, not, ◌==◌, ◌≡◌, refl, String, string_eq, beq_self, true, false, [], ◌∷◌,
  some, ok, All, contains, arith,
}

abbrev port : ScopeGateway
port = record {
  member_branch = λ member. some "north";
  member_organization = λ member. some "org";
  member_groups = λ member. "cell" ∷ [];
  group_subtree = λ group. group ∷ [];
  branch_subtree = λ branch. branch ∷ [];
  gathering_scope =
      λ gathering. record { branch = some "north"; group = some "cell"; organization = some "org" };
  has_valid_invitation = λ gathering member. false;
}

abbrev waiting : String → String → WaitlistCandidate
waiting name registered_at = record {
  name = name;
  gathering = "g";
  registrant = name;
  registered_at = registered_at;
}

rooted : (group : String) → contains (port.group_subtree group) group ≡ true
rooted group = ground (arith, beq_self {A = String} group)

oldest :
    select_waitlist_promotion_candidate
      (waiting "b" "2026-02-02" ∷ waiting "c" "2026-02-01" ∷ waiting "a" "2026-02-01" ∷ [])
    ≡ some (waiting "a" "2026-02-01")
unfolding select_waitlist_promotion_candidate
oldest = refl

batches :
    chunk_members ("ann" ∷ "" ∷ "bob" ∷ "ann" ∷ "eve" ∷ []) (pos 2)
    ≡ ok (("ann" ∷ "bob" ∷ []) ∷ ("eve" ∷ []) ∷ [])
unfolding chunk_members
batches = refl

lapsed : is_invitation_expired (some "2026-01-01") "2026-01-01" ≡ true
unfolding is_invitation_expired
lapsed = refl

select_waitlist_promotion_candidate_lem_example :
    (chosen : WaitlistCandidate) × (select_waitlist_promotion_candidate
        (waiting "b" "2026-02-02" ∷ waiting "c" "2026-02-01" ∷ [])
      ≡ some chosen)
    × IsIn chosen (waiting "b" "2026-02-02" ∷ waiting "c" "2026-02-01" ∷ [])
    × All
        (λ c. is_before c chosen ≡ false)
        (waiting "b" "2026-02-02" ∷ waiting "c" "2026-02-01" ∷ [])
select_waitlist_promotion_candidate_lem_example =
    select_waitlist_promotion_candidate_lem (waiting "b" "2026-02-02")
      (waiting "c" "2026-02-01" ∷ [])

abbrev members : List String
members = "ann" ∷ "" ∷ "bob" ∷ "ann" ∷ "eve" ∷ []

chunk_members_lem_example :
    (batches : List (List String)) × (chunk_members members (pos 2) ≡ ok batches)
    × All (IsBatch 2) batches
    × IsDistinct (concat batches)
    × ((m : String) → contains (concat batches) m ≡ (contains members m && not (m == "")))
chunk_members_lem_example = chunk_members_lem members 1
