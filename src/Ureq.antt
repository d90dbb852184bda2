-- ===== src/Ureq.antt =====
-- src/ureq: the requester.
pub mod Config
pub mod Event
pub mod Loop
pub mod Main
pub mod Report
pub mod Round
pub mod Target
