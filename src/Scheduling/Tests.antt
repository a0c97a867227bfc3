-- ===== src/Scheduling/Tests.antt =====
-- A small organization, and the theorems at it.
use flock_os.Scheduling.{
  Announcement, Wiring, Preview, Desk, validate_status_transition, author_branch_scope,
  preview_audience, schedule_announcement, illegal_transition, missing_gateway,
  publish_announcement,
}
use flock_os.Scheduling.Audience.{IsSubtree, preview_audience-IsSubtree}
use flock_os.Trees.{descendants_of, children, subtree_of}
use flock_os.Scheduling.Schedule.{IsScheduled, schedule_announcement-IsScheduled}
use flock_os.Base.{◌≡◌, refl, string_eq, ◌==◌, true, [], ◌∷◌, length, none, some, ok, err}

abbrev wiring : Wiring
wiring = record {
  gateway = record {
    branch_exists = λ branch organization. true;
    group_exists = λ group. group == "cell";
    group_branch = λ group. some "north";
    branch_children_of = ("root", "north" ∷ "south" ∷ []) ∷ ("north", "east" ∷ []) ∷ [];
  };
  permissions = record {
    get_user_roles = λ user. "Flock Branch Admin" ∷ [];
    resolve_member_for_user = λ user. none;
    fetch_led_group_bounds = λ member. [];
    fetch_joined_group_names = λ member. [];
    fetch_group_bounds = λ group. none;
    list_branch_user_permissions = λ user. "north" ∷ [];
  };
  user = "admin@x";
}

abbrev archived : Announcement
archived = record {
  organization = some "org";
  branch = some "north";
  group = some "cell";
  status = some "Archived";
  scheduled_at = some "2026-05-01";
}

abbrev desk : Desk
desk = record { documents = ("news", archived) ∷ []; events = [] }

abbrev after : Desk
after = record {
  documents = ("news", record archived { status = some "Scheduled" }) ∷ [];
  events =
      (record {
        announcement = "news";
        branch = some "north";
        group = some "cell";
        organization = some "org";
        scheduled_at = some "2026-05-01";
      })
      ∷ [];
}

abbrev preview : Preview
preview = record { branches = "north" ∷ "east" ∷ []; branch_count = 2 }

-- An archived announcement is scheduled again, although no transition leads from `Archived`.
scheduled_again : schedule_announcement wiring "news" desk ≡ ok after
unfolding schedule_announcement
scheduled_again = refl

archived_is_final :
    validate_status_transition "Archived" "Scheduled"
    ≡ err (illegal_transition "Archived" "Scheduled")
unfolding validate_status_transition
archived_is_final = refl

preview_audience-IsSubtree_example :
    IsSubtree wiring.gateway.branch_children_of "north" preview.branches
    × (preview.branch_count ≡ length preview.branches)
    × (author_branch_scope wiring.permissions wiring.user "north" ≡ ok tt)
unfolding preview_audience flock_os.Trees.subtree_of flock_os.Trees.descendants_of
    flock_os.Trees.children
preview_audience-IsSubtree_example =
    preview_audience-IsSubtree wiring "org" "north" none preview refl

schedule_announcement-IsScheduled_example : IsScheduled wiring "news" desk after
schedule_announcement-IsScheduled_example =
    schedule_announcement-IsScheduled wiring "news" desk after scheduled_again

-- A draft that passes every check.
abbrev drafts : Desk
drafts = record {
  documents = ("news", record archived { status = some "Draft" }) ∷ [];
  events = [];
}

unsent : publish_announcement wiring "news" drafts ≡ err missing_gateway
unfolding publish_announcement descendants_of children subtree_of
unsent = refl
