-- ===== src/Convert.antt =====
-- internal/convert/request.go: how a request of the Anthropic API becomes one to Codex.
pub mod Schema
pub mod Messages
pub mod System
pub mod Tools
pub mod Types
pub mod Request
mod Tests
pub mod Instructions
