-- ===== src/Llm.antt =====
-- Calls of language models: errors, retries and quotas (internal/llm).
pub mod Errors
mod Tests
pub mod Retry
pub mod Fallback
