-- ===== src/Notifications.antt =====
-- flock_os/notifications.py: the push from an administrator to the leaders of a part of a tree.
pub mod Fanout
mod Tests
use Prim.Native.String.{◌++◌ as ◌<>◌}
use flock_os.Permissions.{compute_branch_subtree}
use flock_os.Trees.{TreeError, ChildMap, subtree_of}
use flock_os.Base.{
  ℕ, ◌+◌, String, string_eq, ◌==◌, Bool, true, false, not, ◌||◌, ◌&&◌, List, [], ◌∷◌, ◌++◌, map,
  Option, none, some, Result, ok, err, guard, ◌>>=◌, ◌>>◌, filter, length, ltb, truthy, or_text,
  if◌then◌else◌,
}

-- `FlockNotificationError`, by the message, and the error of the trees.
pub data NotificationError : Type 0 where
  organization_required anchor_required : NotificationError
  no_group unbound_group : String → NotificationError
  group_outside : (group branch : String) → NotificationError
  other_branch : (group branch : String) → NotificationError
  branch_outside : String → NotificationError
  tree_fault : TreeError String → NotificationError

abbrev pub notify_room_prefix : String
notify_room_prefix = "flock_os:notify"

abbrev pub broadcast_segment : String
broadcast_segment = "broadcast"

abbrev pub branch_axis : String
branch_axis = "branch"

abbrev pub group_axis : String
group_axis = "group"

unfoldable pub branch_notification_room : String → String
branch_notification_room branch =
    notify_room_prefix <> ":" <> branch_axis <> ":" <> branch <> ":" <> broadcast_segment

unfoldable pub group_notification_room : String → String
group_notification_room group =
    notify_room_prefix <> ":" <> group_axis <> ":" <> group <> ":" <> broadcast_segment

pub record NotificationScope : Type 0 where
  pub organization : String
  pub branch : Option String
  pub group : Option String

-- `NotificationScope.axis`
unfoldable pub axis : NotificationScope → String
axis scope =
    if truthy scope.group then group_axis else if truthy scope.branch then branch_axis else ""

-- `NotificationFanoutGateway`, the port that reads the trees and the leaders.
pub record NotificationGateway : Type 0 where
  pub branch_exists : (branch organization : String) → Bool
  pub group_exists : String → Bool
  pub group_branch : String → Option String
  pub branch_children_of : ChildMap String
  pub group_children_of : ChildMap String
  pub leaders_in_branches : List String → List String
  pub leaders_in_groups : List String → List String

-- `NullNotificationFanoutGateway`
abbrev pub null_gateway : NotificationGateway
null_gateway = record {
  branch_exists = λ branch organization. false;
  group_exists = λ group. false;
  group_branch = λ group. none;
  branch_children_of = [];
  group_children_of = [];
  leaders_in_branches = λ branches. [];
  leaders_in_groups = λ groups. [];
}

pub record ScopedAudience : Type 0 where
  pub axis : String
  pub nodes : List String
  pub leaders : List String

-- `ScopedAudience.size`
abbrev pub size : ScopedAudience → ℕ
size audience = length audience.leaders

-- The part of `_validate_scope` for a named group.
unfoldable pub validate_group_scope :
    NotificationScope → NotificationGateway → String → Result NotificationError (Unit {0})
validate_group_scope scope gateway group =
    let bound = gateway.group_branch group in
    let group_branch = or_text bound "" in
    do
      guard (gateway.group_exists group) (no_group group)
      guard (truthy bound) (unbound_group group)
      guard (gateway.branch_exists group_branch scope.organization)
          (group_outside group group_branch)
      guard (not (truthy scope.branch) || or_text scope.branch "" == group_branch)
          (other_branch group group_branch)

-- `_validate_scope`
unfoldable pub validate_scope :
    NotificationScope → NotificationGateway → Result NotificationError (Unit {0})
unfolding validate_group_scope
validate_scope scope gateway =
    let branch = or_text scope.branch "" in
    do
      guard (not (scope.organization == "")) organization_required
      guard (truthy scope.branch || truthy scope.group) anchor_required
      if truthy scope.group
          then validate_group_scope scope gateway (or_text scope.group "")
          else guard (gateway.branch_exists branch scope.organization) (branch_outside branch)

-- The exceptions of the trees pass through.
abbrev pub raised_by {ℓ} : {A : Type ℓ} → Result (TreeError String) A → Result NotificationError A
raised_by (ok a) = ok a
raised_by (err e) = err (tree_fault e)

-- The two ways of `resolve_scoped_audience`, by the axis.
unfoldable pub group_audience :
    NotificationGateway → String → Result NotificationError ScopedAudience
unfolding subtree_of
group_audience gateway group = do
  nodes ← raised_by (subtree_of group gateway.group_children_of)
  ok (record { axis = group_axis; nodes = nodes; leaders = gateway.leaders_in_groups nodes })

unfoldable pub branch_audience :
    NotificationGateway → String → Result NotificationError ScopedAudience
unfolding compute_branch_subtree
branch_audience gateway branch = do
  nodes ← raised_by (compute_branch_subtree branch gateway.branch_children_of)
  ok (record { axis = branch_axis; nodes = nodes; leaders = gateway.leaders_in_branches nodes })

unfoldable pub resolve_scoped_audience :
    NotificationScope → NotificationGateway → Result NotificationError ScopedAudience
unfolding validate_scope group_audience branch_audience
resolve_scoped_audience scope gateway = do
  validate_scope scope gateway
  if truthy scope.group
      then group_audience gateway (or_text scope.group "")
      else branch_audience gateway (or_text scope.branch "")

unfoldable pub rooms_for : ScopedAudience → List String
rooms_for audience =
    map (if audience.axis == group_axis then group_notification_room else branch_notification_room)
      audience.nodes

-- The arguments of `fanout` besides the scope.
pub record Push : Type 0 where
  pub subject : String
  pub body : String
  pub audience_role : String
  pub category : Option String
  pub notification_ref : Option String

-- The message of a room, and the payload of `flock.notification.sent`, with its scope.
pub record Notice : Type 0 where
  pub push : Push
  pub axis : String
  pub nodes : List String
  pub audience_size : ℕ
  pub scope : NotificationScope

pub record FanoutResult : Type 0 where
  pub scope : NotificationScope
  pub audience : ScopedAudience
  pub rooms : List String
  pub event : Notice
  pub push : Push

-- What has been published to a room, and what has been emitted.
pub record Outbox : Type 0 where
  pub published : List (String × Notice)
  pub emitted : List Notice

-- `publish` for each room; the exception of a room that the publisher cannot reach is dropped.
unfoldable pub publish_all :
    (String → Bool) → Notice → List String → List (String × Notice) → List (String × Notice)
publish_all reaches message [] published = published
publish_all reaches message (room ∷ rooms) published =
    publish_all reaches message rooms
      (if reaches room then published ++ (room, message) ∷ [] else published)

-- `fanout`, from the audience on.
unfoldable pub deliver :
    (String → Bool) → NotificationScope → Push → ScopedAudience → Outbox → FanoutResult × Outbox
unfolding rooms_for publish_all
deliver reaches scope push audience outbox =
    let rooms = if ltb 0 (size audience) then rooms_for audience else [] in
    let notice : Notice = record {
      push = push;
      axis = audience.axis;
      nodes = audience.nodes;
      audience_size = size audience;
      scope = scope;
    } in
    (
      record { scope = scope; audience = audience; rooms = rooms; event = notice; push = push },
      record {
        published = publish_all reaches notice rooms outbox.published;
        emitted = outbox.emitted ++ notice ∷ [];
      },
    )

-- `fanout`, by the audience or the refusal.
unfoldable pub dispatch :
    (String → Bool)
    → NotificationScope
    → Push
    → Result NotificationError ScopedAudience
    → Outbox
    → Result NotificationError FanoutResult × Outbox
unfolding deliver
dispatch reaches scope push (err e) outbox = (err e, outbox)
dispatch reaches scope push (ok audience) outbox =
    let (result, outbox') = deliver reaches scope push audience outbox in (ok result, outbox')

-- `ScopedNotificationService.fanout`, by the rooms that the publisher reaches.
unfoldable pub fanout :
    NotificationGateway
    → (String → Bool)
    → NotificationScope
    → Push
    → Outbox
    → Result NotificationError FanoutResult × Outbox
unfolding resolve_scoped_audience dispatch
fanout gateway reaches scope push outbox =
    dispatch reaches scope push (resolve_scoped_audience scope gateway) outbox
