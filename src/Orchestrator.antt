-- ===== src/Orchestrator.antt =====
-- The booking orchestrator, booking-orchestrator/src.
pub mod Clients
pub mod Service
pub mod Trace
pub mod Saga
pub mod Compensation
pub mod Cancel
pub mod Sample
mod ProgressRuns
mod Refusals
mod Examples
mod Runs
pub mod Controller
pub mod Wired
pub mod Success
pub mod Answers
pub mod Calls
pub mod Declined
pub mod Undone
pub mod Served
pub mod Day
pub mod Progress
pub mod Sale
pub mod Routes
pub mod Urls
pub mod Publisher
pub mod Keeps
pub mod Delivery
pub mod Whole
pub mod Program
pub mod Paid
pub mod Owner
pub mod Lost
pub mod Concurrent
