-- ===== src/Models.antt =====
-- src/models.rs: the domain types. `DateTime<Utc>` is a number of microseconds, `Uuid` its 128-bit
-- number, and `serde_json::Value` the data type `Json`.
mod Fault
mod Value
mod Status
mod Job
mod Page
mod Rows
mod Request
pub use Fault.{AppError, ErrorBody}
unfoldable pub use Fault.{to_string, into_response, status_code}
unfoldable pub use Value.*
pub use Status.{JobStatus, GroupStatus}
unfoldable pub use Status.{job_status_text, group_status_text}
pub use Job.*
pub use Page.*
pub use Rows.*
pub use Request.*
