-- ===== src/Timesheet.antt =====
-- modules/timesheet/service: the entries of a member's weeks and the submissions that snapshot them.
pub mod Tables
pub mod Entries
pub mod Projects
pub mod Submissions
pub mod Decisions
pub mod Calls
pub mod Rows
pub mod Lifecycle
pub mod Settled
pub mod Headers
pub mod Replays
