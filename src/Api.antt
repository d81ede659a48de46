-- ===== src/Api.antt =====
-- src/api.rs: the gates, the status pages, the cancel handlers, the submissions, the search, the
-- health page and the table of routes.
pub mod Gate
pub mod Snapshot
pub mod Status
pub mod Submit
pub mod Scrape
pub mod Search
pub mod Errors
pub mod Health
mod Router
mod Examples
mod Requests
