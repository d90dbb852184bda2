-- ===== src/Ures.antt =====
-- The responder, src/ures/.
pub mod Config
pub mod Report
pub mod Service
pub mod Event
pub mod Loop
pub mod Main
