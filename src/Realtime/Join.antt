-- ===== src/Realtime/Join.antt =====
-- Who may join the room of an event.
use flock_os.Realtime.Rooms.{
  EventRoomRef, parse_event_room, branch_admits, room_admits, event_room_join_allowed,
}
use flock_os.Permissions.{PermissionGateway, global_branch_roles, can_access_branch}
use Prim.Native.Char.{Char}
use flock_os.Base.{
  ℕ, ◌≡◌, ◌⊎◌, refl, sym, ap, ◌∙◌, ◌↔◌, String, string_eq, ◌==◌, not, Bool, Option-cases, true,
  false, inl, inr, List, Option, some, any, contains, if◌then◌else◌, arith,
}

module _ (digit : Char → Option ℕ) (room user : String) (gateway : PermissionGateway)
    (branch_for_gathering : String → Option String) where
  -- The room is that of a gathering with a branch, and the user is one of all branches, or of this branch,
  -- or the branch is blank.
  pub record MayJoin : Type 0 where
    pub ref : EventRoomRef
    pub branch : String
    pub is_room : parse_event_room digit room ≡ some ref
    pub has_branch : branch_for_gathering ref.event_id ≡ some branch
    pub granted :
        ((any (contains global_branch_roles) (gateway.get_user_roles user)) ≡ true)
        ⊎ (((branch == "") ≡ true)
            ⊎ (contains (gateway.list_branch_user_permissions user) branch ≡ true))

  -- The roles or the branches let the user in.
  granting :
      (branch : String)
      → (branch_admits user gateway (some branch) ≡ true) ↔ (
          (any (contains global_branch_roles) (gateway.get_user_roles user) ≡ true)
          ⊎ (((branch == "") ≡ true)
              ⊎ (contains (gateway.list_branch_user_permissions user) branch ≡ true)))
  unfolding branch_admits can_access_branch
  granting branch =
      step (any (contains global_branch_roles) (gateway.get_user_roles user)) (branch == "")
    where
      permitted : List String
      permitted = gateway.list_branch_user_permissions user

      step :
          (a b : Bool)
          → ((if a
                then true
                else if not (if b then false else true)
                then true
                else contains permitted (if b then "" else branch))
              ≡ true)
            ↔ ((a ≡ true) ⊎ ((b ≡ true) ⊎ (contains permitted branch ≡ true)))
      step true b = (λ h. inl refl, λ h. refl)
      step false true = (λ h. inr (inl refl), λ h. refl)
      step false false = (λ h. inr (inr h), λ h. ground (arith, h))

  allowed : event_room_join_allowed digit room user gateway branch_for_gathering ≡ true → MayJoin
  unfolding event_room_join_allowed room_admits branch_admits
  allowed h = elim (Option-cases (parse_event_room digit room)) [
    | inl foreign ↦ absurd (cc (sym h ∙ ap (room_admits user gateway branch_for_gathering) foreign))
    | inr (ref, is_room) ↦
        let entered : room_admits user gateway branch_for_gathering (some ref) ≡ true =
          sym (ap (room_admits user gateway branch_for_gathering) is_room) ∙ h in
        elim (Option-cases (branch_for_gathering ref.event_id)) [
          | inl unknown ↦ absurd (cc (sym entered ∙ ap (branch_admits user gateway) unknown))
          | inr (branch, has_branch) ↦ record {
            ref = ref;
            branch = branch;
            is_room = is_room;
            has_branch = has_branch;
            granted =
                (granting branch).0 (sym (ap (branch_admits user gateway) has_branch) ∙ entered);
          }
        ]
  ]

  -- A client is let into a room exactly when the room is one of a gathering that has a branch, and the
  -- user holds a role of all branches, or the branch is among those the user is permitted, or it is blank.
  pub event_room_join_allowed_lem :
      (event_room_join_allowed digit room user gateway branch_for_gathering ≡ true) ↔ MayJoin
  unfolding event_room_join_allowed room_admits
  event_room_join_allowed_lem = (
    allowed,
    λ m.
        ap (room_admits user gateway branch_for_gathering) m.is_room
        ∙ ap (branch_admits user gateway) m.has_branch
        ∙ (granting m.branch).1 m.granted,
  )
