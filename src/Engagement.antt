-- ===== src/Engagement.antt =====
-- flock_os/engagement.py: the live engagement runtime. A module for each part of the file, and
-- modules for what they prove.
pub mod Kinds
pub mod Session
pub mod Ticket
pub mod Gateway
pub mod Service
pub mod Review
mod Tests
