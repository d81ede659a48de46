-- ===== src/Llm.antt =====
-- src/llm.rs: the extraction client and the ranking of search results.
pub mod Unwrap
pub mod Retry
pub mod Chat
pub mod Rank
mod Examples
