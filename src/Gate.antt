-- ===== src/Gate.antt =====
-- internal/gate: the decision ladder in front of the upstream, its passes and its endpoints.
pub mod Decision
pub mod Passes
pub mod Answers
pub mod Ladder
pub mod Presentation
pub mod Writer
pub mod Requests
pub mod Injection
pub mod Upstream
