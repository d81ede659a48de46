-- ===== src/Models/Rows.antt =====
-- src/models.rs: the row types that the queries return.
use fire_ctrl.Prelude.{ℕ, String, Option}
use fire_ctrl.Prelude.Int.{ℤ}
use fire_ctrl.Models.Value.{Json}
use fire_ctrl.Models.Status.{JobStatus, GroupStatus}

pub record QueueScrapeRow : Type 0 where
  pub id : ℕ
  pub status : JobStatus
  pub payload : Option Json
  pub created_at : ℕ
  pub returnvalue : Option Json
  pub failedreason : Option String
  pub group_id : Option ℕ

pub record GroupCrawlRow : Type 0 where
  pub id : ℕ
  pub status : GroupStatus
  pub created_at : ℕ
  pub owner_id : ℕ
  pub ttl : ℤ
  pub expires_at : Option ℕ
