-- ===== src/Models/Status.antt =====
-- src/models.rs: the status enums and how they are displayed.
use fire_ctrl.Prelude.{String}

pub data JobStatus : Type 0 where
  queued scraping active completed failed cancelled : JobStatus

unfoldable pub job_status_text : JobStatus → String
job_status_text JobStatus.queued = "queued"
job_status_text JobStatus.scraping = "scraping"
job_status_text JobStatus.active = "active"
job_status_text JobStatus.completed = "completed"
job_status_text JobStatus.failed = "failed"
job_status_text JobStatus.cancelled = "cancelled"

pub data GroupStatus : Type 0 where
  active completed cancelled : GroupStatus

unfoldable pub group_status_text : GroupStatus → String
group_status_text GroupStatus.active = "active"
group_status_text GroupStatus.completed = "completed"
group_status_text GroupStatus.cancelled = "cancelled"
