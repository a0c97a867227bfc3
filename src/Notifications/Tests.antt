-- ===== src/Notifications/Tests.antt =====
-- A push to a branch with one leader, and the theorem at it.
use flock_os.Notifications.{
  NotificationScope, NotificationGateway, Push, Outbox, FanoutResult, null_gateway,
  branch_notification_room, axis, fanout,
}
use flock_os.Notifications.Fanout.{IsSent, fanout-IsSent}
use flock_os.Trees.{descendants_of, children}
use flock_os.Base.{◌≡◌, refl, String, string_eq, ◌==◌, Bool, [], ◌∷◌, none, some, ok}

abbrev gateway : NotificationGateway
gateway = record null_gateway {
  branch_exists = λ branch organization. organization == "org";
  branch_children_of = ("north", "east" ∷ []) ∷ [];
  leaders_in_branches = λ branches. "lea" ∷ [];
}

abbrev scope : NotificationScope
scope = record { organization = "org"; branch = some "north"; group = none }

abbrev push : Push
push = record {
  subject = "hello";
  body = "";
  audience_role = "Leaders Only";
  category = none;
  notification_ref = none;
}

abbrev outbox : Outbox
outbox = record { published = []; emitted = [] }

abbrev only_north : String → Bool
only_north room = room == "flock_os:notify:branch:north:broadcast"

abbrev result : FanoutResult
result = record {
  scope = scope;
  audience = record { axis = "branch"; nodes = "north" ∷ "east" ∷ []; leaders = "lea" ∷ [] };
  rooms = "flock_os:notify:branch:north:broadcast" ∷ "flock_os:notify:branch:east:broadcast" ∷ [];
  event = record {
    push = push;
    axis = "branch";
    nodes = "north" ∷ "east" ∷ [];
    audience_size = 1;
    scope = scope;
  };
  push = push;
}

sent : (fanout gateway only_north scope push outbox).0 ≡ ok result
unfolding fanout branch_notification_room descendants_of children
sent = refl

by_branch : axis scope ≡ "branch"
unfolding axis
by_branch = refl

fanout-IsSent_example :
    IsSent gateway only_north scope push outbox
      (fanout gateway only_north scope push outbox).1
      result
fanout-IsSent_example = fanout-IsSent gateway only_north scope push outbox result sent
