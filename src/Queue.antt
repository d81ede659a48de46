-- ===== src/Queue.antt =====
-- src/database.rs: the job queue and the crawl groups in PostgreSQL. The tables and the
-- statements are in `Table`, `Jobs`, `Stalls` and `Groups`; the other children prove.
mod Table
mod Jobs
mod Stalls
mod Groups
mod Updates
pub mod Waiting
pub mod Claim
pub mod Trace
pub mod Keys
pub mod Consistent
pub mod Life
pub mod Pages
mod Lookup
pub mod Cancel
mod Examples
unfoldable pub use Table.*
unfoldable pub use Jobs.*
unfoldable pub use Stalls.*
unfoldable pub use Groups.*
unfoldable pub use Lookup.*
