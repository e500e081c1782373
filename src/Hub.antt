-- ===== src/Hub.antt =====
-- hub/timekpr_hub: the services behind the hub's endpoints.
pub mod Rows
pub mod Tables
pub mod Limits
pub mod Aggregate
pub mod Summaries
pub mod Policy
pub mod DayHours
pub mod Enrollment
pub mod Provision
pub mod Sync
pub mod Users
pub mod Audit
pub mod Admins
pub mod Editor
mod Tests
