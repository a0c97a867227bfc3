-- ===== src/Gatherings/Tests.antt =====
-- Small inputs.
use flock_os.Gatherings.{
  validate_status_transition, illegal_transition, validate_gathering_branch_binding,
  group_without_branch, build_group_path,
}
use flock_os.Base.{◌≡◌, refl, [], ◌∷◌, none, some, err}

no_way_back :
    validate_status_transition (some "Confirmed") "Held"
    ≡ err (illegal_transition "Confirmed" "Held")
unfolding validate_status_transition
no_way_back = refl

unbound : validate_gathering_branch_binding none "north" ≡ err group_without_branch
unfolding validate_gathering_branch_binding
unbound = refl

rooted : build_group_path ("cell" ∷ "area" ∷ "root" ∷ []) ≡ "/root/area/cell"
unfolding build_group_path
rooted = refl
