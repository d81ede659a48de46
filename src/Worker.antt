-- ===== src/Worker.antt =====
-- src/worker.rs: stall recovery, webhooks, the worker pool and the jobs.
pub mod Recovery
pub mod Job
pub mod Content
pub mod Kinds
pub mod Turn
pub mod Webhook
pub mod Pool
mod Examples
