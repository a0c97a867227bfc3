-- ===== src/Lib.antt =====
-- Flock OS: the core of a church management application on Frappe, in Python. The rules live in
-- modules that know no framework and speak to ports; this library models those modules over their
-- in-memory adapters.
--
-- How the parts interact: a group tree (flock_os/flock_os/trees.py) says who is above whom. A live
-- engagement session (flock_os/engagement.py) collects signed interactions from attendees into a
-- participation log; when it is closed, its attendees become attendance items that the bulk service
-- (flock_os/reporting.py) writes once, counts and announces. The same service writes the batches that
-- come over the transport (flock_os/attendance.py), through a queue, and the reports of the leaders on
-- their gatherings (flock_os/leader_reporting.py, flock_os/gatherings.py). A one-time event is approved by the
-- leaders above its group (flock_os/approvals.py), and then members register for it
-- (flock_os/registrations.py). The guards of flock_os/permissions.py say which rows a user may touch and
-- who decides an approval step; announcements (flock_os/scheduling.py) reach the subtree of a branch
-- that passes them, and so do the pushes to the leaders (flock_os/notifications.py). What happens at a
-- gathering is told to the rooms of its clients, which the same guards protect (flock_os/realtime.py).
-- Beside the application, a monitor finds silent runs (tools/ops/ceo_heartbeat/monitor.py), and a
-- watchdog (tools/ops/agent_liveness/watchdog.py) restarts an agent or calls the board by the verdict
-- and the plan of tools/ops/agent_liveness/recovery.py.
--
-- Files:
--   Base           what all share: Boolean tests, native lists, keys, dictionaries, results, methods
--   Trees          flock_os/flock_os/trees.py; Ancestors, Order, Cycles and Descendants prove
--   Reporting      flock_os/reporting.py, the service over its in-memory gateway; Counters, Unseen, Replay
--                  and Batch prove
--   Gatherings     flock_os/gatherings.py
--   LeaderReporting
--                  flock_os/leader_reporting.py, the service over its in-memory gateway: the
--                  classification, and Submission (submit_report); Chunks, Counting, Ending and
--                  Report prove
--   Attendance     flock_os/attendance.py: the request, Job (process_bulk_batch with its retries) and
--                  LeaderReport (report_attendance); Request and Settles prove
--   Engagement     flock_os/engagement.py: Kinds (the catalog, normalize_score), Session
--                  (EngagementSession, the lifecycle and the window), Ticket (attendee_key,
--                  sign_ticket, verify_ticket), Gateway (InMemoryEngagementGateway), Service
--                  (EngagementService) and Review (review_queue_items), each with what is proved of it
--                  in child modules
--   Approvals      flock_os/approvals.py; Transitions, Walk, Cap, Shape, Chain and Advance prove
--   Registrations  flock_os/registrations.py; Transitions, Scope, Capacity, Waitlist and Chunks prove
--   Permissions    flock_os/permissions.py, the guards; Checks, Group and Decide prove
--   Scheduling     flock_os/scheduling.py; Validity, Audience and Schedule prove
--   Notifications  flock_os/notifications.py; Fanout proves
--   Realtime       flock_os/realtime.py: the channels and the shards, Routes (the projector) and Rooms
--                  (parse_event_room, event_room_join_allowed); Shards, Fan and Join prove
--   CeoHeartbeat   tools/ops/ceo_heartbeat/monitor.py; Oldest, Silence, Sorting, Durations and
--                  Health prove
--   Recovery       tools/ops/agent_liveness/recovery.py; Owner, Verdict and Plan prove
--   Watchdog       tools/ops/agent_liveness/watchdog.py: Steps (up to the loop) and Procedure
--                  (run_watchdog); Keeps, Fire, Rounds, Ends, Board, Cleared,
--                  Recovered and Handled prove
--
-- State and operations: a gateway and a service are records of their attributes; a method is a
-- function from the state to its result and the new state, and an exception comes with the state that
-- the method left (Base.Stateful). A dictionary is an association list in order of insertion, a set the
-- list of its members. A function of the model has the name of the function of the code, without a
-- leading underscore. Each reading of the clock is an argument. Times are numbers of microseconds where
-- nothing else is said, scores and reaction times of thousandths; JSON texts that nothing reads stay
-- texts.
--
-- Parameters: SHA-256, HMAC and the printing of a time (Engagement.Ticket.Crypto), the bulk service of a
-- session (Engagement.Service.Config), and the ports of the approvals
-- (Approvals.ChainGateway), of the registrations (Registrations.ScopeGateway), of the permissions
-- (Permissions.PermissionGateway), of the announcements (Scheduling.SchedulingGateway) and of the pushes
-- (Notifications.NotificationGateway); the service over the database for the job of a batch, and the
-- clock; the number in the id of a chunk (`numbered`); the checksum, the conversions and the digits that
-- Python brings to the rooms (Realtime.Runtime, `digit`); which rooms a publisher reaches; the reader,
-- the clock and the actions of the watchdog, by what it has done (Watchdog.Ports). The theorems about
-- them hold for all functions.
--
-- Fuel: the two loops of Trees run on fuel taken from the size of the dictionary, and are proved never
-- to use it up: a walk meets a new key of the dictionary in each step. The slices of
-- Registrations.chunk_members and LeaderReporting.record_chunks run on the length of the list, which is
-- proved to be enough. The loop of the watchdog runs on one step more than the attempts that are left,
-- and is proved never to use it up. The attempts in place of a job are counted down from the bound of the
-- code. All other loops are recursions on a list or a text.
--
-- Not modelled: everything that only talks to Frappe, Redis or HTTP (the adapters, the DocType
-- controllers, the API layer, the event bus and its outbox, the metrics), the texts of comments and
-- reports, scripts and tests.
pub mod Base
pub mod Trees
pub mod Reporting
pub mod Gatherings
pub mod LeaderReporting
pub mod Attendance
pub mod Engagement
pub mod Approvals
pub mod Registrations
pub mod Permissions
pub mod Scheduling
pub mod Notifications
pub mod Realtime
pub mod CeoHeartbeat
pub mod Recovery
pub mod Watchdog
